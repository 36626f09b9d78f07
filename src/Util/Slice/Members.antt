-- ===== src/Util/Slice/Members.antt =====
-- The elements of what Merge of util/slice.go returns.
use mathlib.Core.List.{Memᴰ}
use mathlib.Core.List.Memᴰ
use orchy.Base.{ℤ, List, [], ◌∷◌, ◌++◌, append-nil, ◌≡◌, ◌≢◌, refl, sym, ap, inl, inr}
use orchy.Util.Slice.{extend, product, merge}

-- An element of one list, and behind it one of another.
abbrev pub Chosen : List (List ℤ) → List (List ℤ) → List ℤ → Type 0
Chosen gs hs s = (g : List ℤ) × (h : List ℤ) × Memᴰ g gs × Memᴰ h hs × (s ≡ g ++ h)

extend_sound :
    (g : List ℤ) (hs : List (List ℤ)) (s : List ℤ)
    → Memᴰ s (extend g hs)
    → (h : List ℤ) × Memᴰ h hs × (s ≡ g ++ h)
extend_sound g [] s inside = elim inside [ ]
extend_sound g (h ∷ hs) s (Memᴰ.head e) = (h, Memᴰ.head refl, e)
extend_sound g (h ∷ hs) s (Memᴰ.tail inside) =
    let (k, there, e) = extend_sound g hs s inside in (k, Memᴰ.tail there, e)

extend_complete :
    (g : List ℤ) (hs : List (List ℤ)) (h : List ℤ) → Memᴰ h hs → Memᴰ (g ++ h) (extend g hs)
extend_complete g [] h inside = elim inside [ ]
extend_complete g (k ∷ hs) h (Memᴰ.head e) = Memᴰ.head (ap (λ (l : List ℤ). g ++ l) e)
extend_complete g (k ∷ hs) h (Memᴰ.tail inside) = Memᴰ.tail (extend_complete g hs h inside)

product_sound : (gs hs : List (List ℤ)) (s : List ℤ) → Memᴰ s (product gs hs) → Chosen gs hs s
product_sound [] hs s inside = elim inside [ ]
product_sound (g ∷ gs) hs s inside = elim (Memᴰ.append_cases (extend g hs) inside) [
  | inl here ↦ let (h, there, e) = extend_sound g hs s here in (g, h, Memᴰ.head refl, there, e)
  | inr later ↦
      let (k, h, there, there', e) = product_sound gs hs s later in
      (k, h, Memᴰ.tail there, there', e)
]

product_complete :
    (gs hs : List (List ℤ)) (g h : List ℤ) → Memᴰ g gs → Memᴰ h hs → Memᴰ (g ++ h) (product gs hs)
product_complete [] hs g h inside inside' = elim inside [ ]
product_complete (k ∷ gs) hs g h (Memᴰ.head e) inside' =
    rw e (Memᴰ.append_left (product gs hs) (extend_complete k hs h inside'))
product_complete (k ∷ gs) hs g h (Memᴰ.tail inside) inside' =
    Memᴰ.append_right (extend k hs) (product_complete gs hs g h inside inside')

-- An empty side counts as one empty set.
abbrev pub seeds : List (List ℤ) → List (List ℤ)
seeds [] = [] ∷ []
seeds (h ∷ hs) = h ∷ hs

with_empty : (gs : List (List ℤ)) (s : List ℤ) → Memᴰ s gs → Chosen gs ([] ∷ []) s
with_empty gs s inside = (s, [], inside, Memᴰ.head refl, sym (append-nil s))

pub merge_sound :
    (gs hs : List (List ℤ)) (s : List ℤ) → gs ≢ [] → Memᴰ s (merge gs hs) → Chosen gs (seeds hs) s
unfolding merge
merge_sound [] hs s full inside = absurd (full refl)
merge_sound (g ∷ gs) [] s full inside = with_empty (g ∷ gs) s inside
merge_sound (g ∷ gs) (h ∷ hs) s full inside = product_sound (g ∷ gs) (h ∷ hs) s inside

pub merge_complete :
    (gs hs : List (List ℤ)) (g h : List ℤ)
    → Memᴰ g gs
    → Memᴰ h (seeds hs)
    → Memᴰ (g ++ h) (merge gs hs)
unfolding merge
merge_complete [] hs g h inside inside' = elim inside [ ]
merge_complete (k ∷ gs) [] g h inside inside' =
    rw (Memᴰ.eq_of_singleton inside', append-nil g) inside
merge_complete (k ∷ gs) (j ∷ hs) g h inside inside' =
    product_complete (k ∷ gs) (j ∷ hs) g h inside inside'

pub merge-ne-nil : (gs hs : List (List ℤ)) → gs ≢ [] → merge gs hs ≢ []
unfolding merge
merge-ne-nil [] hs full = absurd (full refl)
merge-ne-nil (g ∷ gs) [] full = cc
merge-ne-nil (g ∷ gs) (h ∷ hs) full = cc
