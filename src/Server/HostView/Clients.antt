-- ===== src/Server/HostView/Clients.antt =====
-- The clients of the sessions, and the tables of active hosts, under the operations of both tables.
use html_terminal.Prelude.{
  ℕ, ◌≡◌, refl, true, some, List, [], ◌∷◌, Dict, lookup, is_some, All, arith, Bool-cases,
  Option-cases, inl, inr, if◌then◌else◌, ◌==◌, ltb,
}
use html_terminal.Server.Tables.{place, emplace, remove, assign, rewrite, lookup-emplace}
use html_terminal.Server.Sessions.{clients_of}
use html_terminal.Server.State.{WebAppSession, RemoteHostInfo}
use html_terminal.Server.HostView.{member, All-member}

module _ (P : ℕ → Type 0) where
  pub All-clients_of-remove :
      (k : ℕ) (m : Dict WebAppSession) → All P (clients_of m) → All P (clients_of (remove k m))
  unfolding clients_of remove
  All-clients_of-remove k [] f = tt
  All-clients_of-remove k ((j, x) ∷ m) f = elim (Bool-cases (k == j)) [
    | inl e ↦ rw e (All-clients_of-remove k m f.1)
    | inr e ↦ rw e (f.0, All-clients_of-remove k m f.1)
  ]

  pub All-clients_of-place :
      (k : ℕ) (v : WebAppSession) (m : Dict WebAppSession)
      → P v.client
      → All P (clients_of m)
      → All P (clients_of (place k v m))
  unfolding clients_of place
  All-clients_of-place k v [] p f = (p, tt)
  All-clients_of-place k v ((j, x) ∷ m) p f = elim (Bool-cases (ltb k j)) [
    | inl e ↦ rw e (p, f)
    | inr e ↦ rw e (f.0, All-clients_of-place k v m p f.1)
  ]

  pub All-clients_of-emplace :
      (k : ℕ) (v : WebAppSession) (m : Dict WebAppSession)
      → P v.client
      → All P (clients_of m)
      → All P (clients_of (emplace k v m))
  unfolding emplace
  All-clients_of-emplace k v m p f = elim (Bool-cases (is_some (lookup k m))) [
    | inl e ↦ rw e f
    | inr e ↦ rw e (All-clients_of-place k v m p f)
  ]

clients_of-rewrite :
    (k : ℕ) (v x : WebAppSession) (m : Dict WebAppSession)
    → lookup k m ≡ some x
    → v.client ≡ x.client
    → clients_of (rewrite k v m) ≡ clients_of m
unfolding clients_of rewrite
clients_of-rewrite k v x [] e f = cc
clients_of-rewrite k v x ((j, y) ∷ m) e f = elim (Bool-cases (k == j)) [
  | inl q ↦ let same : y ≡ x = ground (arith, q) in rw (q, f, same) refl
  | inr q ↦ rw (q, clients_of-rewrite k v x m (ground (arith, q)) f) refl
]

-- A change of a session that keeps its client keeps the list of clients.
pub clients_of-assign :
    (k : ℕ) (v x : WebAppSession) (m : Dict WebAppSession)
    → lookup k m ≡ some x
    → v.client ≡ x.client
    → clients_of (assign k v m) ≡ clients_of m
unfolding assign
clients_of-assign k v x m e f =
    let there : is_some (lookup k m) ≡ true = rw e refl in rw there (clients_of-rewrite k v x m e f)

pub is_some-lookup-emplace :
    (h j : ℕ) (info : RemoteHostInfo) (m : Dict RemoteHostInfo)
    → is_some (lookup h (emplace j info m)) ≡ (if h == j then true else is_some (lookup h m))
unfolding emplace
is_some-lookup-emplace h j info m = elim (Option-cases (lookup j m)) [
  | inl e ↦ ground (arith, e, lookup-emplace h j info m e)
  | inr (x, e) ↦ ground (arith, e)
]

pub member_self : (cs : List ℕ) → All (λ c. member c cs ≡ true) cs
member_self cs = All-member cs cs (λ c e. e)

pub All-zip :
    {A : Type 0} (P Q R : A → Type 0) (xs : List A)
    → ((x : A) → P x → Q x → R x)
    → All P xs
    → All Q xs
    → All R xs
All-zip P Q R [] f p q = tt
All-zip P Q R (x ∷ xs) f p q = (f x p.0 q.0, All-zip P Q R xs f p.1 q.1)
