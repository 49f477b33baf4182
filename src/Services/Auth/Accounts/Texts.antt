-- ===== src/Services/Auth/Accounts/Texts.antt =====
-- validate_email and validate_password of backend/src/services/auth_service.rs.
use Prim.Native.String.{String, [] as empty_text, ◌∷◌ as ◌∷text◌, len, count}
use Prim.Native.Char.{Char, code as code_point}
use on_air_record.Base.{ℕ, Bool, true, false, ◌&&◌, ◌||◌, not, ltb, leb, ◌==◌, if◌then◌else◌}
use on_air_record.Error.{bad_request, Result, success_of, err}

abbrev pub within : ℕ → ℕ → ℕ → Bool
within low high c = leb low c && leb c high

-- `char::is_whitespace`
unfoldable pub is_whitespace : Char → Bool
is_whitespace c =
    let n = code_point c in
    within 9 13 n
    || (n == 32
        || (n == 133
            || (n == 160
                || (n == 5760
                    || (within 8192 8202 n
                        || (within 8232 8233 n || (n == 8239 || (n == 8287 || n == 12288))))))))

unfoldable pub trim_start : String → String
unfolding is_whitespace
trim_start empty_text = empty_text
trim_start (c ∷text text) =
    let rest = trim_start text in if is_whitespace c then rest else c ∷text text

unfoldable pub trim_end : String → String
unfolding is_whitespace
trim_end empty_text = empty_text
trim_end (c ∷text text) =
    let rest = trim_end text in
    if is_whitespace c
    then elim rest [ empty_text ↦ empty_text | d ∷text more ↦ c ∷text (d ∷text more) ]
    else c ∷text rest

unfoldable pub trim : String → String
unfolding trim_start trim_end
trim text = trim_end (trim_start text)

unfoldable pub any_blank : String → Bool
unfolding is_whitespace
any_blank empty_text = false
any_blank (c ∷text text) = is_whitespace c || any_blank text

abbrev pub is_at : Char → Bool
is_at c = code_point c == 64

abbrev pub is_blank : String → Bool
is_blank empty_text = true
is_blank (_ ∷text _) = false

-- Past the first character of the local part: the first `@` ends it, and something follows.
unfoldable pub splits_at : String → Bool
splits_at empty_text = false
splits_at (c ∷text text) =
    let later = splits_at text in if is_at c then not (is_blank text) else later

unfoldable pub has_parts : String → Bool
unfolding splits_at
has_parts empty_text = false
has_parts (c ∷text text) = not (is_at c) && splits_at text

unfoldable pub validate_email : String → Result String
unfolding trim any_blank has_parts
validate_email raw =
    let email = trim raw in
    if leb (len email) 254 && (not (any_blank email) && has_parts email)
    then success_of email
    else err (bad_request "that does not look like an email address")

unfoldable pub validate_password : String → Result Unit
validate_password password =
    let length = count password in
    if ltb length 8
    then err (bad_request "the password needs at least 8 characters")
    else if ltb 128 length
    then err (bad_request "the password can be at most 128 characters")
    else success_of tt
