-- ===== src/Base/Strconv/Split.antt =====
-- strings.Split takes apart what strings.Join put together.
use mathlib.Core.Path.{◌≡◌, ap, sym, ◌∙◌}
use mathlib.Core.Logic.{◌≢◌}
use mathlib.Core.List.{[], ◌∷◌, ◌++◌, reverse, reverse-cons, append-nil, append_assoc}
use native.Mathlib.Omega.{arith}
use orchy.Base.Lists.{All}
use orchy.Base.Strings.{Text}
use orchy.Base.Strconv.{split_from, split, join}

-- No character is a colon.
abbrev pub HasNoColon : Text → Type 0
HasNoColon = All (λ c. c ≢ b':')

-- A colon ends a part.
split_from-colon :
    (s t part : Text)
    → HasNoColon s
    → split_from part (s ++ (b':' ∷ t)) ≡ (reverse part ++ s) ∷ split t
unfolding split_from split
split_from-colon [] t part h = ap (λ p. p ∷ split_from [] t) (sym (append-nil (reverse part)))
split_from-colon (c ∷ s) t part h = ground (
  arith,
  split_from-colon s t (c ∷ part) h.1,
  reverse-cons c part,
  append_assoc (reverse part) (c ∷ []) s,
)

split_from-all : (s part : Text) → HasNoColon s → split_from part s ≡ (reverse part ++ s) ∷ []
unfolding split_from
split_from-all [] part h = ap (λ p. p ∷ []) (sym (append-nil (reverse part)))
split_from-all (c ∷ s) part h = ground (
  arith,
  split_from-all s (c ∷ part) h.1,
  reverse-cons c part,
  append_assoc (reverse part) (c ∷ []) s,
)

-- Four parts without a colon come back.
pub split-join :
    (p q r s : Text)
    → HasNoColon p
    → HasNoColon q
    → HasNoColon r
    → HasNoColon s
    → split (join (p ∷ q ∷ r ∷ s ∷ [])) ≡ p ∷ q ∷ r ∷ s ∷ []
unfolding split join
split-join p q r s hp hq hr hs =
    split_from-colon p (join (q ∷ r ∷ s ∷ [])) [] hp
    ∙ ap (λ x. p ∷ x) (split_from-colon q (join (r ∷ s ∷ [])) [] hq)
    ∙ ap (λ x. p ∷ q ∷ x) (split_from-colon r s [] hr)
    ∙ ap (λ x. p ∷ q ∷ r ∷ x) (split_from-all s [] hs)
