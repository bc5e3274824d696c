-- ===== src/Backend/Nodes/Balanced/Runs.antt =====
-- Runs of the changes of a node's slaves: AddSlave, DeleteSlave, DownSlave, UpSlave and ParseSlave.
use kingshard.Prelude.{
  ℕ, suc, ℤ, Bytes, List, [], ◌∷◌, ◌++◌, Option, none, some, Bool, true, false, if◌then◌else◌, ◌≡◌,
  refl, sym, subst, split_on,
}
use kingshard.Outcome.{Result, Error, ok, err, panic, ◌>>=◌}
use kingshard.Outcome.Error.{slave_exist, strconv_syntax}
use kingshard.Backend.Pool.{Db, State}
use kingshard.Backend.Nodes.{
  Managed, Change, address, weight, balance, has_slave, opened_slave, new_slave, add_slave,
  delete_slave, down_slave, at_address, put_slave, up_db, up_slave, parse_loop, parsed, parse_slave,
}
use kingshard.Backend.Nodes.Balanced.{
  IsPaired, IsBalanced, Balances, IsPaired-append, balance-IsBalanced, delete_slave-Balances,
  down_slave-Balances, put_slave-Balances,
}

-- What a call without an error returns.
abbrev Gives : (Managed → Type 0) → Result Change → Type 0
Gives P (ok (none, n)) = P n
Gives P (ok (some e, n)) = Unit {0}
Gives P (err e) = Unit {0}
Gives P (panic why) = Unit {0}

bind-Gives :
    {A : Type 0} (P : Managed → Type 0) (m : Result A) (f : A → Result Change)
    → ((a : A) → m ≡ ok a → Gives P (f a))
    → Gives P (m >>= f)
bind-Gives P (ok a) f h = h a refl
bind-Gives P (err e) f h = tt
bind-Gives P (panic why) f h = tt

Gives-if :
    (P : Managed → Type 0) (b : Bool) (r r' : Result Change)
    → Gives P r
    → Gives P r'
    → Gives P (if b then r else r')
Gives-if P true r r' h h' = h
Gives-if P false r r' h h' = h'

balance-Gives :
    (draws : List ℕ) (n : Managed)
    → IsPaired n.slave n.slave_weights
    → Gives IsBalanced (balance draws n)
balance-Gives draws n h = by_result (balance draws n) (balance-IsBalanced draws n h)
  where
    by_result : (r : Result Change) → Balances r → Gives IsBalanced r
    by_result (ok (none, n)) b = b
    by_result (ok (some e, n)) b = tt
    by_result (err e) b = tt
    by_result (panic why) b = tt

module _ (open_at : Bytes → ℕ → Result Db) where
  opened_slave-Gives :
      (draws : List ℕ) (addr : Bytes) (n : Managed) (w : ℤ)
      → IsBalanced n
      → Gives IsBalanced (
          opened_slave open_at draws addr
            (record n { slave_weights = n.slave_weights ++ (w ∷ []) }))
  unfolding opened_slave
  opened_slave-Gives draws addr n w h = by_answer (open_at addr 0)
    where
      by_answer :
          (r : Result Db)
          → Gives IsBalanced (elim r as (λ _. Result Change) [
            | ok d ↦ balance draws (record n {
              slave_made = true;
              slave = n.slave ++ (some d ∷ []);
              slave_weights = n.slave_weights ++ (w ∷ []);
            })
            | err e ↦ ok (some e, record n { slave_weights = n.slave_weights ++ (w ∷ []) })
            | panic why ↦ panic why
          ])
      by_answer (ok d) = balance-Gives draws _ (IsPaired-append n.slave n.slave_weights d w h.0)
      by_answer (err e) = tt
      by_answer (panic why) = tt

  new_slave-Gives :
      (draws : List ℕ) (addr : Bytes) (n : Managed)
      → IsBalanced n
      → Gives IsBalanced (new_slave open_at draws addr n)
  unfolding new_slave
  new_slave-Gives draws addr n h = by_weight (weight (split_on b'@' addr).1)
    where
      by_weight :
          (o : Option ℤ)
          → Gives IsBalanced (elim o as (λ _. Result Change) [
            | none ↦ ok (some strconv_syntax, n)
            | some w ↦
                opened_slave open_at draws
                  (address addr)
                  (record n { slave_weights = n.slave_weights ++ (w ∷ []) })
          ])
      by_weight none = tt
      by_weight (some w) = opened_slave-Gives draws (address addr) n w h

  add_slave-Gives :
      (draws : List ℕ) (addr : Bytes) (n : Managed)
      → IsBalanced n
      → Gives IsBalanced (add_slave open_at draws addr n)
  unfolding add_slave
  add_slave-Gives draws [] n h = tt
  add_slave-Gives draws (c ∷ cs) n h =
      bind-Gives IsBalanced (has_slave (c ∷ cs) n.slave) _ (λ found e.
        Gives-if IsBalanced found (ok (some slave_exist, n)) _ tt
          (new_slave-Gives draws (c ∷ cs) n h))

  abbrev Fits : Managed → Type 0
  Fits n = IsPaired n.slave n.slave_weights

  -- What the further rounds of the loop give behind one more slave.
  abbrev Rest : ℕ → List Bytes → Managed → Type 0
  Rest i ss n =
      (w : ℤ) (d : Db)
      → Gives Fits (
          parse_loop open_at (suc i) ss (record n {
            slave = n.slave ++ (some d ∷ []);
            slave_weights = n.slave_weights ++ (w ∷ []);
          }))

  parse_loop-Gives :
      (i : ℕ) (ss : List Bytes) (n : Managed) → Fits n → Gives Fits (parse_loop open_at i ss n)
  unfolding parse_loop
  parse_loop-Gives i [] n h = h
  parse_loop-Gives i (s ∷ ss) n h =
      by_weight
        (λ w d. parse_loop-Gives (suc i) ss _ (IsPaired-append n.slave n.slave_weights d w h))
        (weight (split_on b'@' s).1)
    where
      by_answer :
          Rest i ss n
          → (w : ℤ) (r : Result Db)
          → Gives Fits (elim r as (λ _. Result Change) [
            | ok d ↦ parse_loop open_at (suc i) ss (record n {
              slave = n.slave ++ (some d ∷ []);
              slave_weights = n.slave_weights ++ (w ∷ []);
            })
            | err e ↦ ok (some e, record n { slave_weights = n.slave_weights ++ (w ∷ []) })
            | panic why ↦ panic why
          ])
      by_answer rest w (ok d) = rest w d
      by_answer rest w (err e) = tt
      by_answer rest w (panic why) = tt

      by_weight :
          Rest i ss n
          → (o : Option ℤ)
          → Gives Fits (elim o as (λ _. Result Change) [
            | none ↦ ok (some strconv_syntax, n)
            | some w ↦ elim (open_at (address s) i) as (λ _. Result Change) [
              | ok d ↦ parse_loop open_at (suc i) ss (record n {
                slave = n.slave ++ (some d ∷ []);
                slave_weights = n.slave_weights ++ (w ∷ []);
              })
              | err e ↦ ok (some e, record n { slave_weights = n.slave_weights ++ (w ∷ []) })
              | panic why ↦ panic why
            ]
          ])
      by_weight rest none = tt
      by_weight rest (some w) = by_answer rest w (open_at (address s) i)

  parse_slave-Gives :
      (draws : List ℕ) (text : Bytes) (n : Managed)
      → IsBalanced n
      → Gives IsBalanced (parse_slave open_at draws text n)
  unfolding parse_slave parsed
  parse_slave-Gives draws [] n h = h
  parse_slave-Gives draws (c ∷ cs) n h = bind-Fits _ (
      parse_loop-Gives 0 _ (record n { slave_made = true; slave = []; slave_weights = [] })
        (tt, refl))
    where
      bind-Fits :
          (r : Result Change) → Gives Fits r → Gives IsBalanced (r >>= λ c. parsed open_at draws c)
      bind-Fits (ok (none, n')) g = balance-Gives draws n' g
      bind-Fits (ok (some e, n')) g = tt
      bind-Fits (err e) g = tt
      bind-Fits (panic why) g = tt

  -- The changes of a node's slaves, each with what the random source and the ping answered.
  pub data Step : Managed → Managed → Type 0 where
    added :
        (draws : List ℕ) (addr : Bytes) (n n' : Managed)
        → add_slave open_at draws addr n ≡ ok (none, n')
        → Step n n'
    deleted :
        (draws : List ℕ) (addr : Bytes) (e : Option Error) (n n' : Managed)
        → delete_slave draws addr n ≡ ok (e, n')
        → Step n n'
    downed :
        (addr : Bytes) (state : State) (e : Option Error) (n n' : Managed)
        → down_slave addr state n ≡ ok (e, n')
        → Step n n'
    parsed_again :
        (draws : List ℕ) (text : Bytes) (n n' : Managed)
        → parse_slave open_at draws text n ≡ ok (none, n')
        → Step n n'
    upped :
        (ping : Option Error) (addr : Bytes) (db : Db) (e : Option Error) (n n' : Managed)
        → up_db open_at ping addr ≡ ok db
        → at_address addr n.slave ≡ ok true
        → up_slave open_at ping addr n ≡ ok (e, n')
        → Step n n'

  pub data Runs : Managed → Managed → Type 0 where
    rested : (n : Managed) → Runs n n
    stepped : (n n' n'' : Managed) → Step n n' → Runs n' n'' → Runs n n''

  up_slave-Balances :
      (ping : Option Error) (addr : Bytes) (db : Db) (n : Managed)
      → up_db open_at ping addr ≡ ok db
      → at_address addr n.slave ≡ ok true
      → IsBalanced n
      → Balances (up_slave open_at ping addr n)
  unfolding up_slave
  up_slave-Balances ping addr db n p t h =
      subst
        (λ r. Balances (elim r as (λ _. Result Change) [
          | ok d ↦ put_slave addr none (some d) n
          | err e ↦ put_slave addr (some e) none n
          | panic why ↦ panic why
        ]))
        (sym p) (put_slave-Balances addr none db n t h)

  Step-IsBalanced : (n n' : Managed) → Step n n' → IsBalanced n → IsBalanced n'
  Step-IsBalanced n n' (added draws addr _ _ e) h =
      subst (Gives IsBalanced) e (add_slave-Gives draws addr n h)
  Step-IsBalanced n n' (deleted draws addr _ _ _ e) h =
      subst Balances e (delete_slave-Balances draws addr n h)
  Step-IsBalanced n n' (downed addr state _ _ _ e) h =
      subst Balances e (down_slave-Balances addr state n h)
  Step-IsBalanced n n' (parsed_again draws text _ _ e) h =
      subst (Gives IsBalanced) e (parse_slave-Gives draws text n h)
  Step-IsBalanced n n' (upped ping addr db _ _ _ p t e) h =
      subst Balances e (up_slave-Balances ping addr db n p t h)

  -- The slaves, weights and queue of a node fit together, no slave is nil, and every position in the
  -- queue is a slave's: this is kept, for all answers of OpenDB, draws and pings, by every run of
  -- AddSlave and ParseSlave where they succeed, of DeleteSlave and DownSlave whatever they return,
  -- and of UpSlave where UpDB succeeds and the address is a slave's.
  pub Runs-IsBalanced : (n n' : Managed) → Runs n n' → IsBalanced n → IsBalanced n'
  Runs-IsBalanced n _ (rested _) h = h
  Runs-IsBalanced n n'' (stepped _ n' _ s r) h = Runs-IsBalanced n' n'' r (Step-IsBalanced n n' s h)
