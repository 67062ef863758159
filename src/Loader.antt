-- ===== src/Loader.antt =====
-- webapp/loader.js: `class Loader` loads the scripts one by one, and then starts the web app. The
-- browser answers each script that is included by one `load` event.
pub mod Order
use html_terminal.Prelude.{
  ℕ, zero, suc, ◌+◌, ◌==◌, String, Option, none, some, List, [], ◌∷◌, ◌++◌, length, get_elem?,
  if◌then◌else◌, Bool, true, false,
}

-- `included` lists the scripts given to the document, and `inits` counts the calls of
-- `document.webApp.init()`.
pub record Loader : Type 0 where
  pub load_count : ℕ
  pub scripts : List String
  pub included : List String
  pub inits : ℕ

abbrev pub scripts : List String
scripts =
    "addon-fit.js" ∷ "xterm.js" ∷ "app.event.js" ∷ "view.js" ∷ "filemode.node.js"
    ∷ "message.builder.js" ∷ "messenger.js" ∷ "remote.host.js" ∷ "remote.host.term.bt.js"
    ∷ "remote.host.list.js" ∷ "remote.host.options.js" ∷ "terminal.node.js" ∷ "terminal.view.js"
    ∷ "terminal.manager.js" ∷ "reconnect.info.js" ∷ "web.app.js" ∷ []

-- `includeScript(url)`; past the end of the list the url is `undefined`.
unfoldable pub include_script : Option String → Loader → Loader
include_script none l = record l { included = l.included ++ ("undefined" ∷ []) }
include_script (some url) l = record l { included = l.included ++ (url ∷ []) }

-- `constructor()`, over a list of scripts.
unfoldable pub new_loader : List String → Loader
unfolding include_script
new_loader names =
    include_script (get_elem? names 0)
      (record { load_count = 0; scripts = names; included = []; inits = 0 })

-- `onScriptLoaded()`
unfoldable pub on_script_loaded : Loader → Loader
unfolding include_script
on_script_loaded l =
    let n = l.load_count + 1 in
    if n == length l.scripts
    then record l { load_count = n; inits = l.inits + 1 }
    else include_script (get_elem? l.scripts n) (record l { load_count = n })

-- `n` load events.
unfoldable pub after_loads : ℕ → Loader → Loader
after_loads zero l = l
after_loads (suc n) l = after_loads n (on_script_loaded l)
