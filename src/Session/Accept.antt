-- ===== src/Session/Accept.antt =====
-- gateway/gateway.c: the program's accept loop and the ends of its sessions. A session counts as running
-- from the creation of its thread to the `gateway_set_active (runtime, 0)` at its end; the descriptors and
-- the log are left out.
use carplay_poc.Base.{
  ℕ, zero, suc, ◌+◌, ◌-◌, ◌≡◌, ◌⊎◌, inr, refl, arith, Bool, true, false, not, List, [], ◌∷◌,
  if◌then◌else◌,
}

-- `gateway_runtime_t`, with how many sessions run
pub record Runtime : Type 0 where
  pub session_active : Bool
  pub running : ℕ

-- What becomes of a client.
pub data Decision : Type 0 where
  no_client rejected no_memory no_thread served : Decision

-- `gateway_set_active`
abbrev pub set_active : Bool → Runtime → Runtime
set_active active r = record r { session_active = active }

-- one turn of the loop in `main`: whether `accept` gave a client, `malloc` memory and
-- `pthread_create` a thread
unfoldable pub accept_client : Bool → Bool → Bool → Runtime → Decision × Runtime
accept_client accepted allocated created r =
    if not accepted
    then (no_client, r)
    else if r.session_active
    then (rejected, r)
    else if not allocated
    then (no_memory, r)
    else if not created
    then (no_thread, set_active false (set_active true r))
    else (served, record (set_active true r) { running = r.running + 1 })

-- the end of `gateway_session_main`
unfoldable pub session_end : Runtime → Runtime
session_end r = record (set_active false r) { running = r.running - 1 }

-- A client comes, or one of the running sessions ends; where none runs, none ends.
pub data Happening : Type 0 where
  client : Bool → Bool → Bool → Happening
  ended : Happening

unfoldable pub happen : Happening → Runtime → Runtime
happen (client accepted allocated created) r = (accept_client accepted allocated created r).1
happen ended r = elim r.running as (λ _. Runtime) [ zero ↦ r | suc n ↦ session_end r ]

unfoldable pub happen_all : List Happening → Runtime → Runtime
happen_all [] r = r
happen_all (h ∷ hs) r = happen_all hs (happen h r)

-- `memset(&runtime, 0, ...)`
abbrev pub started : Runtime
started = record { session_active = false; running = 0 }

-- The flag tells whether a session runs, and one runs at most.
abbrev pub IsExclusive : Runtime → Type 0
IsExclusive r =
    ((r.session_active ≡ true) × (r.running ≡ 1)) ⊎ ((r.session_active ≡ false) × (r.running ≡ 0))

accept_client-IsExclusive :
    (a b d : Bool) (r : Runtime) → IsExclusive r → IsExclusive (accept_client a b d r).1
unfolding accept_client
accept_client-IsExclusive a b d r v = ground (arith, v)

session_end-IsExclusive :
    (r : Runtime) (n : ℕ) → r.running ≡ suc n → IsExclusive r → IsExclusive (session_end r)
unfolding session_end
session_end-IsExclusive r n e v = ground (arith, e, v)

happen-IsExclusive : (h : Happening) (r : Runtime) → IsExclusive r → IsExclusive (happen h r)
unfolding happen
happen-IsExclusive (client a b d) r v = accept_client-IsExclusive a b d r v
happen-IsExclusive ended r v = by_count r.running refl
  where
    by_count :
        (n : ℕ)
        → r.running ≡ n
        → IsExclusive (elim n as (λ _. Runtime) [ zero ↦ r | suc n ↦ session_end r ])
    by_count zero e = v
    by_count (suc n) e = session_end-IsExclusive r n e v

happen_from-IsExclusive :
    (hs : List Happening) (r : Runtime) → IsExclusive r → IsExclusive (happen_all hs r)
unfolding happen_all
happen_from-IsExclusive [] r v = v
happen_from-IsExclusive (h ∷ hs) r v =
    happen_from-IsExclusive hs (happen h r) (happen-IsExclusive h r v)

-- Whatever clients come and whichever calls fail, at most one session runs at any time, and the flag
-- is set exactly while one does.
pub happen_all-IsExclusive : (hs : List Happening) → IsExclusive (happen_all hs started)
happen_all-IsExclusive hs = happen_from-IsExclusive hs started (inr (refl, refl))
