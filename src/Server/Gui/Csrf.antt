-- ===== src/Server/Gui/Csrf.antt =====
-- internal/server/gui/middleware.go: the CSRF cookie and its field.
use proxywi.Common.{
  ℕ, ◌≡◌, refl, ◌≢◌, ◌↔◌, ◌⊎◌, Bool, true, false, not, Option, none, some, [], ◌∷◌, arith,
  if◌then◌else◌, Bytes, codes, same, same_refl, same_iff, is_empty, Result, ok, err,
}

-- The cookie, where there is one; the value that `randHex` draws; the cookie that is set.
unfoldable pub ensure_csrf : Option Bytes → Bytes → Bytes × Option Bytes
ensure_csrf none fresh = (fresh, some fresh)
ensure_csrf (some c) fresh = if not (is_empty c) then (c, none) else (fresh, some fresh)

unfoldable pub csrf_token : Option Bytes → Bytes
csrf_token none = []
csrf_token (some c) = c

-- Whether the request passes, and the status that is written where it does not.
unfoldable pub validate_csrf : Bytes → Option Bytes → Bytes → Bool × Option ℕ
unfolding csrf_token
validate_csrf method cookie field =
    let expected = csrf_token cookie in
    if not (same method (codes "POST"))
    then (true, none)
    else if is_empty expected
    then (false, none)
    else if not (same field expected)
    then (false, some 403)
    else (true, none)

-- What the handler behind it answers, and else the status that was written.
unfoldable pub require_csrf : {A : Type 0} → Bytes → Option Bytes → Bytes → A → Result (Option ℕ) A
unfolding validate_csrf
require_csrf method cookie field next =
    let (passed, status) = validate_csrf method cookie field in
    if not passed then err status else ok next

-- A POST reaches its handler exactly where the field carries the value of a cookie that is not
-- empty; every other method always does.
pub require_csrf_lem :
    {A : Type 0} (method : Bytes) (cookie : Option Bytes) (field : Bytes) (next : A)
    → (require_csrf method cookie field next ≡ ok next)
      ↔ ((method ≢ codes "POST") ⊎ ((cookie ≡ some field) × (field ≢ [])))
unfolding require_csrf validate_csrf csrf_token
require_csrf_lem method none field next = ground (arith, same_iff method (codes "POST"))
require_csrf_lem method (some []) field next = ground (arith, same_iff method (codes "POST"))
require_csrf_lem method (some (x ∷ c)) field next =
    ground (arith, same_iff method (codes "POST"), same_iff field (x ∷ c))

-- The cookie that the browser holds after an answer.
abbrev pub after : Option Bytes → Option Bytes → Option Bytes
after cookie none = cookie
after cookie (some c) = some c

-- A form that carries the token of its page passes: whatever cookie the browser had before, the
-- cookie it has after the page and the token that was drawn for the page agree.
pub validate_csrf-ensure_csrf :
    (cookie : Option Bytes) (fresh : Bytes)
    → fresh ≢ []
    → validate_csrf
        (codes "POST")
        (after cookie (ensure_csrf cookie fresh).1)
        (ensure_csrf cookie fresh).0
      ≡ (true, none)
unfolding ensure_csrf validate_csrf csrf_token same
validate_csrf-ensure_csrf none [] h = absurd (h refl)
validate_csrf-ensure_csrf none (x ∷ fresh) h = rw (same_refl (x ∷ fresh)) refl
validate_csrf-ensure_csrf (some []) [] h = absurd (h refl)
validate_csrf-ensure_csrf (some []) (x ∷ fresh) h = rw (same_refl (x ∷ fresh)) refl
validate_csrf-ensure_csrf (some (x ∷ c)) fresh h = rw (same_refl (x ∷ c)) refl
