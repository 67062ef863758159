-- ===== src/Server/Http/Downloads.antt =====
-- The link that the page makes for a file, as the server reads it.
use html_terminal.Prelude.{
  ℕ, ◌^◌, ◌<◌, ◌≤◌, ◌≡◌, ◌≢◌, refl, Bool, true, false, not, ◌&&◌, some, [], ◌∷◌, ◌++◌, Text, All,
  All-mono, All-append, codes, same_text, if◌then◌else◌, arith,
}
use html_terminal.Decimal.{decimal, IsDigit, decimal-digits, decimal-ne_nil}
use html_terminal.FileMode.Path.{href_of}
use html_terminal.Server.State.{Server}
use html_terminal.Server.Sessions.{find_remote_host}
use html_terminal.Server.Web.{perpare_file_download_response}
use html_terminal.Server.Http.{
  Outside, handled, no_response, handle, perpare_http_get_response, resource_name, answer_get,
  perpare_download, download_args, has_request,
}

-- What `Split` and `ToInt` do where the separator stands between two texts that are not empty, no
-- character of the first one being the separator's first, and where a text is a number of an `int`.
pub record IsLawful (out : Outside) : Type 0 where
  pub split_once :
      (before after sep : Text) (first : ℕ)
      → before ≢ []
      → after ≢ []
      → All (λ c. c ≢ first) before
      → out.split (before ++ ((first ∷ sep) ++ after)) (first ∷ sep) 2 ≡ before ∷ after ∷ []
  pub to_int-decimal : (n : ℕ) → n < 2 ^ 31 → out.to_int (decimal n) ≡ some n

append-eq-nil : (xs ys : Text) → xs ++ ys ≡ [] → xs ≡ []
append-eq-nil [] ys e = refl
append-eq-nil (x ∷ xs) ys e = cc

module _ (out : Outside) (law : IsLawful out) (id : ℕ) (target : Text) where
  download_args-href_of :
      id < 2 ^ 31 → target ≢ [] → download_args out (b'/' ∷ href_of id target) ≡ some (id, target)
  unfolding download_args href_of
  download_args-href_of small ne =
      let args = decimal id ++ (b'&' ∷ target) in
      let some_args : args ≢ [] =
        λ e. decimal-ne_nil id (append-eq-nil (decimal id) (b'&' ∷ target) e) in
      let digits : All (λ c. c ≢ b'&') (decimal id) =
        All-mono IsDigit (λ c. c ≢ b'&') (decimal id) (λ c h e. omega (arith, h.0, e))
          (decimal-digits id) in
      rw
        (
          law.split_once (b'/' ∷ []) args (codes "ownload?") b'd' (λ e. cc) some_args
              ((λ e. omega (arith, e)), tt),
          law.split_once (decimal id) target [] b'&' (decimal-ne_nil id) ne digits,
          law.to_int-decimal id small,
        )
        refl

served :
    (out : Outside) (up : ℕ → Bool) (listen : Bool) (client id : ℕ) (ip target : Text) (s : Server)
    → IsLawful out
    → not listen && not (same_text ip (codes "127.0.0.1")) ≡ false
    → id < 2 ^ 31
    → target ≢ []
    → handle out up listen
        (record {
          client = some (client, ip);
          is_get = true;
          request_target = b'/' ∷ href_of id target;
        })
        s
      ≡ some (
        if has_request up (find_remote_host id s.web_app_sessions) then handled else no_response,
        perpare_file_download_response up client id target s,
      )
unfolding handle perpare_http_get_response resource_name answer_get perpare_download href_of
served out up listen client id ip target s law may small ne =
    rw (may, download_args-href_of out law id target small ne) refl

-- A character that a browser leaves as it is in the query of a URL.
abbrev pub IsQueryChar : ℕ → Type 0
IsQueryChar c =
    (b'!' ≤ c) × (c ≤ b'~') × (c ≢ b'"') × (c ≢ b'#') × (c ≢ b'\'') × (c ≢ b'<') × (c ≢ b'>')

-- What a browser, on the page of the server, asks for when a link is clicked: a name with a query of
-- such characters as it stands.
abbrev pub IsBrowser : (Text → Text) → Type 0
IsBrowser requested =
    (query : Text)
    → All IsQueryChar query
    → requested (codes "download?" ++ query) ≡ b'/' ∷ (codes "download?" ++ query)

requested-href_of :
    (requested : Text → Text) (id : ℕ) (target : Text)
    → IsBrowser requested
    → All IsQueryChar target
    → requested (href_of id target) ≡ b'/' ∷ href_of id target
unfolding href_of
requested-href_of requested id target law plain = law (decimal id ++ (codes "&" ++ target)) (
    All-append IsQueryChar (decimal id) (codes "&" ++ target)
      (All-mono IsDigit IsQueryChar (decimal id)
        (λ c h. (
          omega (arith, h.0),
          omega (arith, h.1),
          (λ e. omega (arith, h.0, e)),
          (λ e. omega (arith, h.0, e)),
          (λ e. omega (arith, h.0, e)),
          (λ e. omega (arith, h.1, e)),
          λ e. omega (arith, h.1, e),
        ))
        (decimal-digits id))
      (
        (
          omega arith,
          omega arith,
          (λ e. omega (arith, e)),
          (λ e. omega (arith, e)),
          (λ e. omega (arith, e)),
          (λ e. omega (arith, e)),
          λ e. omega (arith, e),
        ),
        plain,
      ))

-- A request that a browser makes for the link of the page to a file of the terminal `id`, whose path has
-- only characters that stay as they are in a query, from an address that may ask, is served by the
-- download of just that path at the host of that terminal: it is handled if the terminal is in some
-- session and its host has a connection.
pub handle-href_of :
    (out : Outside) (up : ℕ → Bool) (listen : Bool) (client id : ℕ) (ip target : Text) (s : Server)
    (requested : Text → Text)
    → IsLawful out
    → IsBrowser requested
    → All IsQueryChar target
    → not listen && not (same_text ip (codes "127.0.0.1")) ≡ false
    → id < 2 ^ 31
    → target ≢ []
    → handle out up listen
        (record {
          client = some (client, ip);
          is_get = true;
          request_target = requested (href_of id target);
        })
        s
      ≡ some (
        if has_request up (find_remote_host id s.web_app_sessions) then handled else no_response,
        perpare_file_download_response up client id target s,
      )
handle-href_of out up listen client id ip target s requested law browser plain may small ne =
    rw (requested-href_of requested id target browser plain)
      (served out up listen client id ip target s law may small ne)
