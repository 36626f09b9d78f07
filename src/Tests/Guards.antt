-- ===== src/Tests/Guards.antt =====
-- The theorems on requests that change nothing.
use orchy.Base.{int_eq, text_eq}
