-- ===== src/Delegates/Requests.antt =====
-- The requests of packages/cell-delegates-server/src/delegate-oauth-routes.ts, as the handlers read them,
-- the checks of the authorize route and its redirect.
use casfa.Base.{
  ℕ, zero, suc, ◌+◌, ◌-◌, ◌/◌, ◌%◌, List, [], ◌∷◌, ◌++◌, Option, Bool, false, ◌==◌, ◌||◌, ◌&&◌, leb,
  ltb, if◌then◌else◌, Result, ok, err, ◌>>=◌,
}
use casfa.Core.Text.{Text}
use casfa.Storage.{same_key}
use casfa.Encoding.Cb32.{codes}
use casfa.Drive.Paths.{trim, front_space, non_empty_parts}
use casfa.Delegates.Token.{onto_first}

-- A field of a JSON body: missing or null, a string, or something else.
pub data JsonField : Type 0 where
  absent : JsonField
  text : Text → JsonField
  other : JsonField

-- An element of a list of scopes: a string, or something else with the text that it is printed as.
pub data ScopeItem : Type 0 where
  name : Text → ScopeItem
  printed : Text → ScopeItem

-- `body.scope`: missing or null, a list, or something else with the text of `String(body.scope)`.
pub data ScopeField : Type 0 where
  no_scope : ScopeField
  scope_list : List ScopeItem → ScopeField
  scope_text : Text → ScopeField

pub record AuthorizeBody : Type 0 where
  pub client_name : JsonField
  pub redirect_uri : JsonField
  pub state : JsonField
  pub code_challenge : JsonField
  pub code_challenge_method : JsonField
  pub scope : ScopeField

-- A body that is no JSON, the JSON value null, and any other value with its fields.
pub data JsonBody : Type 0 where
  invalid_json null_json : JsonBody
  fields : AuthorizeBody → JsonBody

pub data OauthError : Type 0 where
  login_required invalid_body redirect_uri_required state_required code_challenge_required :
      OauthError
  scope_not_allowed : Text → OauthError
  form_required code_required code_verifier_required refresh_token_required : OauthError
  client_id_required invalid_grant unsupported_grant_type : OauthError

pub record TokenBody : Type 0 where
  pub access_token : Text
  pub refresh_token : Text
  pub expires_in : ℕ
  pub client_id : Option Text

-- `thrown` is an exception that leaves the handler.
pub data Response : Type 0 where
  failed : ℕ → OauthError → Response
  redirect : Text → Response
  issued : TokenBody → Response
  thrown : Response

-- `!field || typeof field !== "string"`
abbrev pub required : JsonField → OauthError → Result Response Text
required absent e = err (failed 400 e)
required other e = err (failed 400 e)
required (text []) e = err (failed 400 e)
required (text (c ∷ s)) e = ok (c ∷ s)

-- allowedScopes.includes(scope)
unfoldable pub includes : List Text → Text → Bool
unfolding same_key
includes [] scope = false
includes (a ∷ allowed) scope = same_key a scope || includes allowed scope

unfoldable pub allowed_scopes : List Text → List ScopeItem → Result Response (List Text)
unfolding includes
allowed_scopes allowed [] = ok []
allowed_scopes allowed (name s ∷ raw) =
    let rest : Result Response (List Text) = (do
      scopes ← allowed_scopes allowed raw
      ok (s ∷ scopes)) in
    if includes allowed s then rest else err (failed 400 (scope_not_allowed s))
allowed_scopes allowed (printed s ∷ raw) = err (failed 400 (scope_not_allowed s))

-- The width of a separator /[\s+]/ in front, or 0.
abbrev separator : Text → ℕ
separator [] = 0
separator (c ∷ s) = if c == b'+' then 1 else front_space (c ∷ s)

-- split(/[\s+]/); the number counts the bytes of the present separator still to skip.
split_separators : ℕ → Text → List Text
unfolding front_space
split_separators n [] = [] ∷ []
split_separators (suc n) (c ∷ s) = split_separators n s
split_separators zero (c ∷ s) = elim (separator (c ∷ s)) [
  | zero ↦ onto_first c (split_separators zero s)
  | suc n ↦ [] ∷ split_separators n s
]

abbrev names : List Text → List ScopeItem
names [] = []
names (s ∷ scopes) = name s ∷ names scopes

-- split(/[\s+]+/).filter(Boolean)
unfoldable pub split_scopes : Text → List ScopeItem
unfolding split_separators non_empty_parts
split_scopes s = names (non_empty_parts (split_separators 0 s))

abbrev pub raw_scopes : ScopeField → List ScopeItem
raw_scopes no_scope = []
raw_scopes (scope_list items) = items
raw_scopes (scope_text s) = split_scopes s

-- `if (scopeList.length === 0) scopeList = ["use_mcp"]`
abbrev pub or_default : List Text → List Text
or_default [] = codes "use_mcp" ∷ []
or_default (s ∷ scopes) = s ∷ scopes

abbrev pub or_delegate : Text → Text
or_delegate [] = codes "Delegate"
or_delegate (c ∷ s) = c ∷ s

-- `(body.client_name?.trim() ?? "Delegate") || "Delegate"`, which throws on what is no string.
abbrev pub client_name_of : JsonField → Result Response Text
client_name_of absent = ok (codes "Delegate")
client_name_of (text s) = ok (or_delegate (trim s))
client_name_of other = err thrown

-- `body.code_challenge_method ?? "S256"`; a method that is no string is like any other than S256.
abbrev pub method_of : JsonField → Text
method_of absent = codes "S256"
method_of (text s) = s
method_of other = []

pub record AuthorizeRequest : Type 0 where
  pub user_id : Text
  pub client_name : Text
  pub redirect_uri : Text
  pub state : Text
  pub code_challenge : Text
  pub code_challenge_method : Text
  pub scopes : List Text

abbrev pub body_of : JsonBody → Result Response AuthorizeBody
body_of invalid_json = err (failed 400 invalid_body)
body_of null_json = err thrown
body_of (fields body) = ok body

abbrev pub logged_in : Text → Result Response Text
logged_in [] = err (failed 401 login_required)
logged_in (c ∷ s) = ok (c ∷ s)

-- The checks of the authorize route.
unfoldable pub check_authorize : List Text → Text → JsonBody → Result Response AuthorizeRequest
unfolding allowed_scopes split_scopes trim
check_authorize allowed user json = do
  user_id ← logged_in user
  body ← body_of json
  redirect_uri ← required body.redirect_uri redirect_uri_required
  state ← required body.state state_required
  code_challenge ← required body.code_challenge code_challenge_required
  scopes ← allowed_scopes allowed (raw_scopes body.scope)
  client_name ← client_name_of body.client_name
  ok (record {
    user_id = user_id;
    client_name = client_name;
    redirect_uri = redirect_uri;
    state = state;
    code_challenge = code_challenge;
    code_challenge_method = method_of body.code_challenge_method;
    scopes = or_default scopes;
  })

abbrev hex_upper : ℕ → ℕ
hex_upper n = if ltb n 10 then b'0' + n else b'A' + n - 10

abbrev is_unreserved : ℕ → Bool
is_unreserved c =
    (leb b'A' c && leb c b'Z' || leb b'a' c && leb c b'z')
    || ((leb b'0' c && leb c b'9' || (c == b'-' || c == b'_'))
        || ((c == b'.' || c == b'!') || ((c == b'~' || c == b'*') || (leb 39 c && leb c 41))))

-- encodeURIComponent, on the bytes of UTF-8
unfoldable pub encode_uri_component : Text → Text
encode_uri_component [] = []
encode_uri_component (c ∷ s) =
    let rest = encode_uri_component s in
    if is_unreserved c then c ∷ rest else b'%' ∷ hex_upper (c / 16) ∷ hex_upper (c % 16) ∷ rest

abbrev has_question_mark : Text → Bool
has_question_mark [] = false
has_question_mark (c ∷ s) = c == b'?' || has_question_mark s

unfoldable pub redirect_url : Text → Text → Text → Text
unfolding encode_uri_component
redirect_url redirect_uri code state =
    redirect_uri
    ++ ((if has_question_mark redirect_uri then codes "&" else codes "?")
        ++ (codes "code="
            ++ (encode_uri_component code ++ (codes "&state=" ++ encode_uri_component state))))

-- A field of a form: missing, a string, or a file.
pub data FormField : Type 0 where
  missing : FormField
  value : Text → FormField
  file : FormField

abbrev pub required_value : FormField → OauthError → Result Response Text
required_value missing e = err (failed 400 e)
required_value file e = err (failed 400 e)
required_value (value []) e = err (failed 400 e)
required_value (value (c ∷ s)) e = ok (c ∷ s)

pub record TokenForm : Type 0 where
  pub is_form : Bool
  pub grant_type : FormField
  pub code : FormField
  pub code_verifier : FormField
  pub refresh_token : FormField
  pub client_id : FormField
