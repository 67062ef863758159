-- ===== src/Reconnect/Countdown.antt =====
-- The countdown of webapp/reconnect.info.js over time: what is pending, and what each second does.
use Prim.Native.Nat.add
use html_terminal.Prelude.{
  ℕ, zero, suc, ◌+◌, ◌≡◌, refl, Bool, true, false, Option, none, some, [], ◌∷◌, Dict, lookup, erase,
  if◌then◌else◌, arith, Option-cases, inl, inr, subst, ap, sym,
}
use html_terminal.Reconnect.{
  ReconnectInfo, relese_timeout, update_reconnection_counter, enable, disable, fire,
}

-- Just the timer that `reconnectTimeout` names is pending.
abbrev pub OneTimer : Option ℕ → Dict ℕ → Type 0
OneTimer none timers = timers ≡ []
OneTimer (some t) timers = (n : ℕ) × (timers ≡ (t, n) ∷ [])

abbrev pub HasOneTimer : ReconnectInfo → Type 0
HasOneTimer r = OneTimer r.reconnect_timeout r.timers

-- What can happen to the countdown: the connection is lost, it is there, or a timer fires.
pub data Step (r : ReconnectInfo) : ReconnectInfo → Type 0 where
  lost : Step r (enable r).0
  found : Step r (disable r)
  fired : (t : ℕ) → Step r (fire t r).0

pub data Reach (r : ReconnectInfo) : ReconnectInfo → Type 0 where
  here : Reach r r
  next : {a b : ReconnectInfo} → Reach r a → Step a b → Reach r b

-- The timers that `releseTimeout` leaves.
abbrev left : Option ℕ → Dict ℕ → Dict ℕ
left none timers = timers
left (some t) timers = erase t timers

relese_timeout_lem :
    (o : Option ℕ) (r : ReconnectInfo)
    → r.reconnect_timeout ≡ o
    → left o r.timers ≡ []
    → relese_timeout r ≡ record r { timers = []; reconnect_timeout = none }
unfolding relese_timeout
relese_timeout_lem none r e h = ground arith
relese_timeout_lem (some t) r e h = ground arith

left-OneTimer : (o : Option ℕ) (timers : Dict ℕ) → OneTimer o timers → left o timers ≡ []
left-OneTimer none timers h = h
left-OneTimer (some t) timers (n, e) = ground arith

-- The countdown shows `n + 1`, and its only timer holds `n`.
abbrev pub IsPending : ℕ → ReconnectInfo → Type 0
IsPending n r =
    (t : ℕ) × (r.reconnect_timeout ≡ some t) × (r.timers ≡ (t, n) ∷ []) × (r.label ≡ suc n)

update_zero :
    (r : ReconnectInfo)
    → left r.reconnect_timeout r.timers ≡ []
    → update_reconnection_counter 0 r ≡ (record r { timers = []; reconnect_timeout = none }, true)
unfolding update_reconnection_counter
update_zero r h = ground (arith, relese_timeout_lem r.reconnect_timeout r refl h)

update_suc :
    (n : ℕ) (r : ReconnectInfo)
    → left r.reconnect_timeout r.timers ≡ []
    → IsPending n (update_reconnection_counter (suc n) r).0
      × ((update_reconnection_counter (suc n) r).1 ≡ false)
unfolding update_reconnection_counter
update_suc n r h =
    let e = relese_timeout_lem r.reconnect_timeout r refl h in
    ((r.next_timer, ground (arith, e), ground (arith, e), ground (arith, e)), ground (arith, e))

IsPending-OneTimer : (n : ℕ) (r : ReconnectInfo) → IsPending n r → HasOneTimer r
IsPending-OneTimer n r (t, e, es, _) = rw (e, es) (n, refl)

update-HasOneTimer :
    (n : ℕ) (r : ReconnectInfo)
    → left r.reconnect_timeout r.timers ≡ []
    → HasOneTimer (update_reconnection_counter n r).0
update-HasOneTimer zero r h = rw (update_zero r h) refl
update-HasOneTimer (suc n) r h =
    IsPending-OneTimer n (update_reconnection_counter (suc n) r).0 (update_suc n r h).0

fire_idle : (t : ℕ) (r : ReconnectInfo) → lookup t r.timers ≡ none → fire t r ≡ (r, false)
unfolding fire
fire_idle t r h = ground (arith, h)

fire_pending :
    (t n : ℕ) (r : ReconnectInfo)
    → lookup t r.timers ≡ some n
    → fire t r ≡ update_reconnection_counter n (record r { timers = erase t r.timers })
unfolding fire
fire_pending t n r h = ground (arith, h)

-- A fired timer was the only one.
left_after_fire :
    (o : Option ℕ) (t n : ℕ) (timers : Dict ℕ)
    → OneTimer o timers
    → lookup t timers ≡ some n
    → left o (erase t timers) ≡ []
left_after_fire none t n timers h e = ground arith
left_after_fire (some t') t n timers (m, h) e = ground arith

fire-HasOneTimer : (t : ℕ) (r : ReconnectInfo) → HasOneTimer r → HasOneTimer (fire t r).0
fire-HasOneTimer t r h = elim (Option-cases (lookup t r.timers)) [
  | inl idle ↦ rw (fire_idle t r idle) h
  | inr (n, e) ↦ rw (fire_pending t n r e) (
      update-HasOneTimer n (record r { timers = erase t r.timers })
        (left_after_fire r.reconnect_timeout t n r.timers h e))
]

enable-HasOneTimer : (r : ReconnectInfo) → HasOneTimer r → HasOneTimer (enable r).0
unfolding enable
enable-HasOneTimer r h =
    update-HasOneTimer r.counter (record r { visible = true })
      (left-OneTimer r.reconnect_timeout r.timers h)

disable-HasOneTimer : (r : ReconnectInfo) → HasOneTimer r → HasOneTimer (disable r)
unfolding disable
disable-HasOneTimer r h =
    rw
      (relese_timeout_lem r.reconnect_timeout r refl (left-OneTimer r.reconnect_timeout r.timers h))
      refl

Step-HasOneTimer : {a b : ReconnectInfo} → Step a b → HasOneTimer a → HasOneTimer b
Step-HasOneTimer {a} lost h = enable-HasOneTimer a h
Step-HasOneTimer {a} found h = disable-HasOneTimer a h
Step-HasOneTimer {a} (fired t) h = fire-HasOneTimer t a h

-- From a state with at most one pending timer, the one that `reconnectTimeout` names if there is
-- one, every state that is reached has that too, however often the connection is lost and found
-- and whichever timers fire.
pub Reach-HasOneTimer : {a b : ReconnectInfo} → HasOneTimer a → Reach a b → HasOneTimer b
Reach-HasOneTimer h here = h
Reach-HasOneTimer h (next r s) = Step-HasOneTimer s (Reach-HasOneTimer h r)

fire_named : Option ℕ → ReconnectInfo → ReconnectInfo × Bool
fire_named none r = (r, false)
fire_named (some t) r = fire t r

-- A second passes: the pending timer fires.
pub tick : ReconnectInfo → ReconnectInfo × Bool
unfolding fire_named
tick r = fire_named r.reconnect_timeout r

-- `k` seconds pass; the number of new connections asked for.
pub ticks : ℕ → ReconnectInfo → ReconnectInfo × ℕ
ticks zero r = (r, 0)
ticks (suc k) r =
    let (r', asked) = tick r in let (r'', n) = ticks k r' in (r'', if asked then suc n else n)

tick_named : (t : ℕ) (r : ReconnectInfo) → r.reconnect_timeout ≡ some t → tick r ≡ fire t r
unfolding tick
tick_named t r e = ap (λ o. fire_named o r) e

tick-IsPending :
    (n : ℕ) (r : ReconnectInfo)
    → IsPending (suc n) r
    → IsPending n (tick r).0 × ((tick r).1 ≡ false)
tick-IsPending n r (t, e, es, _) =
    let fires = fire_pending t (suc n) r (ground arith) in
    let after = update_suc n (record r { timers = erase t r.timers }) (ground arith) in
    rw (tick_named t r e, fires) after

tick_last :
    (r : ReconnectInfo)
    → IsPending 0 r
    → ((tick r).1 ≡ true) × ((tick r).0.timers ≡ []) × ((tick r).0.reconnect_timeout ≡ none)
tick_last r (t, e, es, _) =
    let fires = fire_pending t 0 r (ground arith) in
    let after = update_zero (record r { timers = erase t r.timers }) (ground arith) in
    rw (tick_named t r e, fires, after) (refl, refl, refl)

ticks_pending :
    (n : ℕ) (r : ReconnectInfo)
    → IsPending n r
    → let (r', asked) = ticks (suc n) r in
      (asked ≡ 1) × (r'.timers ≡ []) × (r'.reconnect_timeout ≡ none)
unfolding ticks
ticks_pending zero r h = ground (arith, tick_last r h)
ticks_pending (suc n) r h = ground (arith, tick-IsPending n r h, ticks_pending n (tick r).0)

ticks_before :
    (k n : ℕ) (r : ReconnectInfo)
    → IsPending (k + n) r
    → IsPending n (ticks k r).0 × ((ticks k r).1 ≡ 0)
unfolding ticks
ticks_before zero n r h = (rw add.zero at h, refl)
ticks_before (suc k) n r h =
    let (p, quiet) = tick-IsPending (k + n) r (rw add.suc at h) in
    let (q, none_asked) = ticks_before k n (tick r).0 p in (q, rw (quiet, none_asked) refl)

enable-IsPending :
    (n : ℕ) (r : ReconnectInfo)
    → HasOneTimer r
    → r.counter ≡ suc n
    → IsPending n (enable r).0 × ((enable r).1 ≡ false)
unfolding enable
enable-IsPending n r h e =
    let shown = record r { visible = true } in
    subst
      (λ c.
        IsPending n (update_reconnection_counter c shown).0
        × ((update_reconnection_counter c shown).1 ≡ false))
      (sym e) (update_suc n shown (left-OneTimer r.reconnect_timeout r.timers h))

-- A countdown from `k + n + 1`, `enable` included, asks for no connection in its first `k` seconds
-- and then shows `n + 1` with one timer pending. It asks for one connection in `k + n + 1` seconds,
-- after which no timer is left. At the start at most one timer is pending, which
-- `reconnectTimeout` names.
pub countdown :
    (k n : ℕ) (r : ReconnectInfo)
    → HasOneTimer r
    → r.counter ≡ suc (k + n)
    → let (r', at_once) = enable r in
      (at_once ≡ false)
      × IsPending n (ticks k r').0
      × ((ticks k r').1 ≡ 0)
      × ((ticks (suc (k + n)) r').1 ≡ 1)
      × ((ticks (suc (k + n)) r').0.timers ≡ [])
countdown k n r h e =
    let (p, quiet) = enable-IsPending (k + n) r h e in
    let (q, none_asked) = ticks_before k n (enable r).0 p in
    let (one, empty, _) = ticks_pending (k + n) (enable r).0 p in (quiet, q, none_asked, one, empty)

ticks_idle : (k : ℕ) (r : ReconnectInfo) → r.reconnect_timeout ≡ none → ticks k r ≡ (r, 0)
unfolding ticks tick
ticks_idle zero r e = refl
ticks_idle (suc k) r e = ground (arith, ticks_idle k r e)

-- Where at most one timer is pending, the one that `reconnectTimeout` names if there is one,
-- `disable` stops the countdown: no timer is left, and no second that passes changes the state or
-- asks for a connection.
pub disable_stops :
    (k : ℕ) (r : ReconnectInfo)
    → HasOneTimer r
    → ((disable r).timers ≡ [])
      × ((disable r).visible ≡ false)
      × (ticks k (disable r) ≡ (disable r, 0))
unfolding disable
disable_stops k r h =
    let stopped =
      relese_timeout_lem r.reconnect_timeout r refl
        (left-OneTimer r.reconnect_timeout r.timers h) in
    rw stopped (refl, refl, ticks_idle k _ refl)
