-- ===== src/Gate/Paths.antt =====
-- The kinds of paths that the hook of src/http/app.ts tells apart.
use Prim.Native.Char.{Char}
use recruiting_os.Common.{
  ◌∷◌, ◌&&◌, str_eq, some, not, none, if◌then◌else◌, false, any, [], String, Option, List, Bool,
}

abbrev pub same_char : Char → Char → Bool
same_char a b = str_eq (String.◌∷◌ a String.[]) (String.◌∷◌ b String.[])

-- The text behind a prefix, if it is there.
unfoldable pub strip_prefix : String → String → Option String
strip_prefix String.[] text = some text
strip_prefix (String.◌∷◌ p ps) String.[] = none
strip_prefix (String.◌∷◌ p ps) (String.◌∷◌ c cs) =
    let rest = strip_prefix ps cs in if same_char p c then rest else none

-- The text before the first place of a character, and the text from there on.
unfoldable pub split_at_char : String → String → String × String
split_at_char mark String.[] = ("", "")
split_at_char mark (String.◌∷◌ c cs) =
    let rest = split_at_char mark cs in
    if str_eq (String.◌∷◌ c String.[]) mark
    then ("", String.◌∷◌ c cs)
    else (String.◌∷◌ c rest.0, rest.1)

-- `request.url.split('?')[0]`
abbrev pub path_of : String → String
path_of url = (split_at_char "?" url).0

abbrev pub is_one_of : List String → String → Bool
is_one_of paths path = any (λ p. str_eq p path) paths

abbrev pub public_paths : List String
public_paths =
    "/" ∷ "/assets/app.css" ∷ "/assets/app.js" ∷ "/favicon.ico" ∷ "/health/live" ∷ "/health/ready"
    ∷ []

abbrev pub authentication_paths : List String
authentication_paths = "/auth/login" ∷ "/auth/callback" ∷ "/auth/development" ∷ []

abbrev pub unsafe_methods : List String
unsafe_methods = "POST" ∷ "PUT" ∷ "PATCH" ∷ "DELETE" ∷ []

abbrev pub probe_paths : List String
probe_paths = "/health/live" ∷ "/health/ready" ∷ []

-- `/^\/api\/connectors\/[^/]+\/callback$/`
abbrev pub is_one_segment : String × String → Bool
is_one_segment (segment, rest) = not (str_eq segment "") && str_eq rest "/callback"

abbrev pub is_segment_of : Option String → Bool
is_segment_of none = false
is_segment_of (some rest) = is_one_segment (split_at_char "/" rest)

unfoldable pub is_connector_callback : String → Bool
is_connector_callback path = is_segment_of (strip_prefix "/api/connectors/" path)
