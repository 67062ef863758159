-- ===== src/WebApp/Listeners.antt =====
-- The registration of listeners in webapp/web.app.js.
use html_terminal.Prelude.{◌≡◌, refl, true, false, List, [], ◌∷◌, ◌++◌, arith, ok, ◌>>◌, ap}
use html_terminal.App.{App, Party, web_app, host_list, terminal_manager, remote_host, same_party}
use html_terminal.HostList.{add_event_listener}
use html_terminal.WebApp.{is_listener, drop_listener, drop_last, remove_event_listener}

same_party_refl : (p : Party) → same_party p p ≡ true
same_party_refl web_app = refl
same_party_refl host_list = refl
same_party_refl terminal_manager = refl
same_party_refl (remote_host h) = ground arith

is_listener-snoc :
    (l q : Party) (ls : List Party)
    → is_listener l ls ≡ false
    → is_listener l (ls ++ (q ∷ [])) ≡ same_party q l
unfolding is_listener
is_listener-snoc l q [] h = ground arith
is_listener-snoc l q (p ∷ ls) h = ground (arith, is_listener-snoc l q ls)

drop_listener-snoc :
    (l q : Party) (ls : List Party)
    → is_listener l ls ≡ false
    → same_party q l ≡ true
    → drop_listener l (ls ++ (q ∷ [])) ≡ ls
unfolding is_listener drop_listener
drop_listener-snoc l q [] h e = ground arith
drop_listener-snoc l q (p ∷ ls) h e = ground (arith, drop_listener-snoc l q ls)

drop_last-snoc {ℓ} : {A : Type ℓ} (x : A) (xs : List A) → drop_last (xs ++ (x ∷ [])) ≡ xs
unfolding drop_last
drop_last-snoc x [] = refl
drop_last-snoc x (y ∷ []) = refl
drop_last-snoc x (y ∷ z ∷ xs) = ap (λ r. y ∷ r) (drop_last-snoc x (z ∷ xs))

-- Where `l` is not registered, adding and removing `l` leaves the listeners as they were. Adding
-- another listener `q` and removing `l` does so too: `removeEventListener` of an unknown listener
-- takes away the last one that was added.
pub add-remove_event_listener :
    (l q : Party) (s : App)
    → is_listener l s.listeners ≡ false
    → same_party q l ≡ false
    → ((add_event_listener l >> remove_event_listener l) s ≡ (ok tt, s))
      × ((add_event_listener q >> remove_event_listener l) s ≡ (ok tt, s))
unfolding add_event_listener remove_event_listener
add-remove_event_listener l q s h d = (
  ground (
    arith,
    is_listener-snoc l l s.listeners h,
    same_party_refl l,
    drop_listener-snoc l l s.listeners h (same_party_refl l),
  ),
  ground (arith, is_listener-snoc l q s.listeners h, d, drop_last-snoc q s.listeners),
)
