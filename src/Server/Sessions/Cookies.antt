-- ===== src/Server/Sessions/Cookies.antt =====
-- The session token in the cookies of a request. A header's value that is no text is `none`.
use remotehub.Base.{
  ℕ, Bool, Option, none, some, List, [], ◌∷◌, ◌++◌, if◌then◌else◌, ◌=?◌, ◌==◌, find, is_empty,
}
use remotehub.Base.Text.{Text, text, text_eq, trim, split_by, split_once}

abbrev pub cookie_name : Text
cookie_name = text "__Host-remotehub-session"

abbrev pub login_key_cookie : Text
login_key_cookie = text "__Host-remotehub-login-key"

abbrev pub push_pair : Option (Text × Text) → List (Text × Text) → List (Text × Text)
push_pair none pairs = pairs
push_pair (some pair) pairs = pair ∷ pairs

abbrev pub read_pairs : List Text → List (Text × Text)
read_pairs [] = []
read_pairs (part ∷ parts) = push_pair (split_once b'=' (trim part)) (read_pairs parts)

abbrev pub is_semicolon : ℕ → Bool
is_semicolon c = c =? b';'

unfoldable pub all_pairs : List (Option Text) → List (Text × Text)
all_pairs [] = []
all_pairs (none ∷ headers) = all_pairs headers
all_pairs (some value ∷ headers) = read_pairs (split_by is_semicolon value) ++ all_pairs headers

abbrev pub filled_value : Option (Text × Text) → Option Text
filled_value none = none
filled_value (some (name, value)) = if is_empty value then none else some value

unfoldable pub cookie : List (Option Text) → Text → Option Text
unfolding all_pairs
cookie headers name = filled_value (find (λ pair. pair.0 == name) (all_pairs headers))

abbrev pub token : List (Option Text) → Option Text
token headers = cookie headers cookie_name

-- `set_cookie` and `set_login_key_cookie`, and `clear`.
unfoldable pub stored : Text → Text → Text
stored name value = name ++ (b'=' ∷ (value ++ text "; Path=/; HttpOnly; Secure; SameSite=Strict"))

unfoldable pub cleared : Text → Text
cleared name = name ++ text "=; Path=/; HttpOnly; Secure; SameSite=Strict; Max-Age=0"
