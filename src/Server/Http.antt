-- ===== src/Server/Http.antt =====
-- WebAppServer.cpp: the answers to HTTP requests, the files of the page and downloads, with
-- `GetResource` of WebAppDataTemplate.cpp.
pub mod Downloads
pub mod Splitting
use html_terminal.Prelude.{
  ℕ, zero, suc, Bool, true, false, not, ◌&&◌, Option, none, some, List, [], ◌∷◌, Text, codes, take,
  same_text, ◌==◌, if◌then◌else◌, is_some,
}
use html_terminal.Server.State.{Server}
use html_terminal.Server.Sessions.{find_remote_host}
use html_terminal.Server.Web.{perpare_file_download_response}

-- `WebAppData`: the files that the build packs, by their names. `find_mime` is `MimeTypeFinder::Find`;
-- `split` and `to_int` are `Split` and `ToInt` of `StringUtils`, where an `int` is its 32 bits, and none
-- stands for false.
pub record Outside : Type 0 where
  pub resources : List (Text × Text)
  pub find_mime : Text → Text
  pub split : Text → Text → ℕ → List Text
  pub to_int : Text → Option ℕ

-- `client` is the id of the connection with its address, and none where it is gone.
pub record HttpRequest : Type 0 where
  pub client : Option (ℕ × Text)
  pub is_get : Bool
  pub request_target : Text

-- `response_msg` is the message with a status alone, or with the body and its type. A request that is
-- `handled` is answered later, by the parts of a file. `no_response` sets neither field.
pub data HttpAnswer : Type 0 where
  status : ℕ → HttpAnswer
  page : Text → Text → HttpAnswer
  handled no_response : HttpAnswer

-- `GetResource(name)`
unfoldable pub get_resource : Text → List (Text × Text) → Text
get_resource name [] = []
get_resource name ((n, body) ∷ resources) =
    let rest = get_resource name resources in if same_text n name then body else rest

-- The name in a target; none where `at(0)` throws.
unfoldable pub resource_name : Text → Option Text
resource_name [] = none
resource_name (c ∷ target) = some (if c == b'/' then target else c ∷ target)

abbrev or_index : Text → Text
or_index [] = codes "index.html"
or_index (c ∷ name) = c ∷ name

abbrev pub download_prefix : Text
download_prefix = codes "download?"

abbrev host_and_path : Outside → List Text → Option (Text × Text)
host_and_path out (id ∷ path ∷ []) = some (id, path)
host_and_path out _ = none

abbrev second_of_two : List Text → Option Text
second_of_two (_ ∷ args ∷ []) = some args
second_of_two _ = none

abbrev split_args : Outside → Option Text → Option (Text × Text)
split_args out none = none
split_args out (some args) = host_and_path out (out.split args (codes "&") 2)

abbrev with_id : Outside → Option (Text × Text) → Option (ℕ × Text)
with_id out none = none
with_id out (some (id, path)) = elim (out.to_int id) [ none ↦ none | some t ↦ some (t, path) ]

-- The terminal id and the path that `PerpareFileDownloadResponse` reads in a target.
unfoldable pub download_args : Outside → Text → Option (ℕ × Text)
download_args out target =
    with_id out (split_args out (second_of_two (out.split target download_prefix 2)))

abbrev pub has_request : (ℕ → Bool) → Option ℕ → Bool
has_request up none = false
has_request up (some h) = up h

abbrev answer_download : (ℕ → Bool) → ℕ → Option (ℕ × Text) → Server → HttpAnswer × Server
answer_download up client none s = (no_response, s)
answer_download up client (some (t, path)) s = (
  if has_request up (find_remote_host t s.web_app_sessions) then handled else no_response,
  perpare_file_download_response up client t path s,
)

-- `PerpareFileDownloadResponse(http_request)`
unfoldable pub perpare_download : Outside → (ℕ → Bool) → ℕ → Text → Server → HttpAnswer × Server
unfolding download_args find_remote_host perpare_file_download_response
perpare_download out up client target = answer_download up client (download_args out target)

abbrev answer_page : Outside → Text → Text → HttpAnswer
answer_page out name [] = status 404
answer_page out name (c ∷ body) = page (c ∷ body) (out.find_mime name)

-- `PerpareHTTPGetResponse(request)` of a name.
unfoldable pub answer_get : Outside → (ℕ → Bool) → ℕ → Text → Text → Server → HttpAnswer × Server
unfolding get_resource perpare_download
answer_get out up client target name s =
    if same_text (take 9 name) download_prefix
    then perpare_download out up client target s
    else (answer_page out name (get_resource name out.resources), s)

abbrev get_named :
    Outside → (ℕ → Bool) → ℕ → Text → Option Text → Server → Option (HttpAnswer × Server)
get_named out up client target none s = none
get_named out up client target (some name) s =
    some (answer_get out up client target (or_index name) s)

-- `PerpareHTTPGetResponse(request)`; none where it throws.
unfoldable pub perpare_http_get_response :
    Outside → (ℕ → Bool) → ℕ → Text → Server → Option (HttpAnswer × Server)
unfolding resource_name answer_get
perpare_http_get_response out up client target =
    get_named out up client target (resource_name target)

-- The tests of `Handle`. Without a client, the address is asked of a null pointer unless all addresses
-- may come.
abbrev handle_from :
    Outside
    → (ℕ → Bool)
    → Bool
    → Option (ℕ × Text)
    → HttpRequest
    → Server
    → Option (HttpAnswer × Server)
handle_from out up true none request s = some (status 405, s)
handle_from out up false none request s = none
handle_from out up listen (some (client, ip)) request s =
    let get = perpare_http_get_response out up client request.request_target s in
    if not listen && not (same_text ip (codes "127.0.0.1"))
    then some (status 405, s)
    else if request.is_get
    then get
    else some (status 405, s)

-- `Handle(request)`; none where it throws or follows a null pointer.
unfoldable pub handle :
    Outside → (ℕ → Bool) → Bool → HttpRequest → Server → Option (HttpAnswer × Server)
unfolding perpare_http_get_response
handle out up listen request = handle_from out up listen request.client request
