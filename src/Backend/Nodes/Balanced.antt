-- ===== src/Backend/Nodes/Balanced.antt =====
-- A node whose slaves, weights and queue fit together, and the changes that keep it so.
pub mod Runs
use kingshard.Prelude.{
  ℕ, zero, suc, ◌+◌, ◌<◌, ℤ, pos, Bytes, eqb_bytes, List, [], ◌∷◌, ◌++◌, length, length-append,
  Option, none, some, Bool, true, false, if◌then◌else◌, if_either, ◌≡◌, ◌≢◌, refl, sym, ap, ◌∙◌,
  subst, inl, inr, arith, split_on, trim, ◌==◌,
}
use kingshard.Outcome.{Result, Error, ok, err, panic, ◌>>=◌, both_returned}
use kingshard.Outcome.Error.{no_slave_db, slave_not_exist, slave_exist, strconv_syntax}
use kingshard.Outcome.Panic.{index_out_of_range}
use kingshard.Backend.Pool.{Db, State, close_db}
use kingshard.Backend.Balancer.{build_queue}
use kingshard.Backend.Balancer.Positions.{Below, Below-build_queue, same}
use kingshard.Backend.Nodes.{
  Managed, Change, address, weight, balance, others, at_address, without, put_first, put_slave,
  delete_slave, has_slave, opened_slave, new_slave, add_slave, down_first, down_slave, parse_loop,
  parsed, parse_slave,
}

-- No slave is nil.
abbrev pub AllOpen : List (Option Db) → Type 0
AllOpen [] = Unit {0}
AllOpen (none ∷ ss) = ⊥
AllOpen (some d ∷ ss) = AllOpen ss

-- Slaves and weights fit together.
abbrev pub IsPaired : List (Option Db) → List ℤ → Type 0
IsPaired ss ws = AllOpen ss × (length ss ≡ length ws)

-- The queue holds positions of slaves, too.
abbrev pub IsBalanced : Managed → Type 0
IsBalanced n = IsPaired n.slave n.slave_weights × Below (length n.slave) n.round_robin_q

-- Whatever a call returns beside its error is balanced.
abbrev Balances : Result Change → Type 0
Balances (ok (e, n)) = IsBalanced n
Balances (err e) = Unit {0}
Balances (panic why) = Unit {0}

bind-Balances :
    {A : Type 0} (m : Result A) (f : A → Result Change)
    → ((a : A) → m ≡ ok a → Balances (f a))
    → Balances (m >>= f)
bind-Balances (ok a) f h = h a refl
bind-Balances (err e) f h = tt
bind-Balances (panic why) f h = tt

AllOpen-append : (ss : List (Option Db)) (d : Db) → AllOpen ss → AllOpen (ss ++ (some d ∷ []))
AllOpen-append [] d h = tt
AllOpen-append (none ∷ ss) d h = absurd h
AllOpen-append (some e ∷ ss) d h = AllOpen-append ss d h

-- One more slave, and one more weight.
IsPaired-append :
    (ss : List (Option Db)) (ws : List ℤ) (d : Db) (w : ℤ)
    → IsPaired ss ws
    → IsPaired (ss ++ (some d ∷ [])) (ws ++ (w ∷ []))
IsPaired-append ss ws d w (h, e) = (
  AllOpen-append ss d h,
  omega (arith, e, length-append ss (some d ∷ []), length-append ws (w ∷ [])),
)

balance-IsBalanced :
    (draws : List ℕ) (n : Managed) → IsPaired n.slave n.slave_weights → Balances (balance draws n)
unfolding balance
balance-IsBalanced draws n h = bind-Balances (build_queue draws n.slave_weights) _ (λ q e.
    (h, subst (λ (k : ℕ). Below k q) (sym (h.1)) (Below-build_queue draws n.slave_weights q e)))

others-IsPaired :
    (addr : Bytes) (ss : List (Option Db)) (ws : List ℤ) (ss' : List (Option Db)) (ws' : List ℤ)
    → IsPaired ss ws
    → others addr ss ws ≡ ok (ss', ws')
    → IsPaired ss' ws'
unfolding others
others-IsPaired addr [] ws ss' ws' h e =
    subst (λ (p : List (Option Db) × List ℤ). IsPaired p.0 p.1) (same e) (tt, refl)
others-IsPaired addr (none ∷ ss) ws ss' ws' h e = absurd h.0
others-IsPaired addr (some d ∷ ss) [] ss' ws' h e = absurd (omega (arith, h.1))
others-IsPaired addr (some d ∷ ss) (w ∷ ws) ss' ws' h e =
    let shorter : IsPaired ss ws = (h.0, omega (arith, h.1)) in
    if_either (λ (r : Result (List (Option Db) × List ℤ)). r ≡ ok (ss', ws') → IsPaired ss' ws')
      (eqb_bytes d.addr addr) (others addr ss ws) _
      (λ t z. others-IsPaired addr ss ws ss' ws' shorter z)
      (λ f z.
        let ((ts, vs), p, z') = both_returned (others addr ss ws) _ z in
        let (good, e') = others-IsPaired addr ss ws ts vs shorter p in
        subst (λ (p : List (Option Db) × List ℤ). IsPaired p.0 p.1) (same z') (good, ap suc e'))
      e

Balances-if :
    (b : Bool) (r r' : Result Change) → Balances r → Balances r' → Balances (if b then r else r')
Balances-if true r r' h h' = h
Balances-if false r r' h h' = h'

without-Balances :
    (draws : List ℕ) (addr : Bytes) (n : Managed) → IsBalanced n → Balances (without draws addr n)
unfolding without
without-Balances draws addr n h =
    bind-Balances (others addr n.slave n.slave_weights) _ (λ (ss, ws) e.
      balance-IsBalanced draws (record n { slave_made = true; slave = ss; slave_weights = ws })
        (others-IsPaired addr n.slave n.slave_weights ss ws h.0 e))

pub delete_slave-Balances :
    (draws : List ℕ) (addr : Bytes) (n : Managed)
    → IsBalanced n
    → Balances (delete_slave draws addr n)
unfolding delete_slave
delete_slave-Balances draws addr n h = Balances-if (length n.slave == 0) _ _ h (
    bind-Balances (at_address addr n.slave) _ (λ found e.
      Balances-if found _ _
        (Balances-if (length n.slave == 1) _ _ ((tt, refl), tt) (without-Balances draws addr n h))
        h))

-- A slave that is put down stays in its place.
down_first-AllOpen :
    (addr : Bytes) (state : State) (ss ss' : List (Option Db))
    → AllOpen ss
    → down_first addr state ss ≡ ok ss'
    → AllOpen ss' × (length ss' ≡ length ss)
unfolding down_first
down_first-AllOpen addr state [] ss' h e =
    subst (λ p. AllOpen p × (length p ≡ 0)) (same e) (tt, refl)
down_first-AllOpen addr state (none ∷ ss) ss' h e = absurd h
down_first-AllOpen addr state (some d ∷ ss) ss' h e =
    if_either
      (λ (r : Result (List (Option Db))). r ≡ ok ss' → AllOpen ss' × (length ss' ≡ suc (length ss)))
      (eqb_bytes d.addr addr) (ok (some (record (close_db d) { state = state }) ∷ ss)) _
      (λ t z. subst (λ p. AllOpen p × (length p ≡ suc (length ss))) (same z) (h, refl))
      (λ f z.
        let (ts, p, z') = both_returned (down_first addr state ss) _ z in
        let (good, e') = down_first-AllOpen addr state ss ts h p in
        subst (λ p. AllOpen p × (length p ≡ suc (length ss))) (same z') (good, ap suc e'))
      e

pub down_slave-Balances :
    (addr : Bytes) (state : State) (n : Managed) → IsBalanced n → Balances (down_slave addr state n)
unfolding down_slave
down_slave-Balances addr state n ((h, e), q) =
    Balances-if n.slave_made _ _
      (bind-Balances (down_first addr state n.slave) _ (λ ss p.
        let (h', e') = down_first-AllOpen addr state n.slave ss h p in
        ((h', e' ∙ e), subst (λ k. Below k n.round_robin_q) (sym e') q)))
      ((h, e), q)

-- A slave that comes up takes the place of the one with its address.
put_first-AllOpen :
    (addr : Bytes) (db : Db) (ss ss' : List (Option Db)) (found : Bool)
    → AllOpen ss
    → at_address addr ss ≡ ok true
    → put_first addr (some db) ss ≡ ok (found, ss')
    → AllOpen ss' × (length ss' ≡ length ss)
unfolding put_first at_address
put_first-AllOpen addr db [] ss' found h t e = cc t
put_first-AllOpen addr db (none ∷ ss) ss' found h t e = absurd h
put_first-AllOpen addr db (some d ∷ ss) ss' found h t e =
    by_address (λ ts b. put_first-AllOpen addr db ss ts b h) (eqb_bytes d.addr addr) t e
  where
    by_address :
        ((ts : List (Option Db)) (b : Bool)
          → at_address addr ss ≡ ok true
          → put_first addr (some db) ss ≡ ok (b, ts)
          → AllOpen ts × (length ts ≡ length ss))
        → (b : Bool) → (if b then ok true else at_address addr ss) ≡ ok true
        → (if◌then◌else◌ {A = Result (Bool × List (Option Db))} b
            (ok (true, some db ∷ ss))
            (put_first addr (some db) ss >>= λ (found, ss'). ok (found, some d ∷ ss')))
          ≡ ok (found, ss')
        → AllOpen ss' × (length ss' ≡ suc (length ss))
    by_address rest true t e =
        subst (λ (p : Bool × List (Option Db)). AllOpen p.1 × (length p.1 ≡ suc (length ss)))
          (same e) (h, refl)
    by_address rest false t e =
        let ((b, ts), p, z) = both_returned (put_first addr (some db) ss) _ e in
        let (good, k) = rest ts b t p in
        subst (λ (p : Bool × List (Option Db)). AllOpen p.1 × (length p.1 ≡ suc (length ss)))
          (same z) (good, ap suc k)

pub put_slave-Balances :
    (addr : Bytes) (why : Option Error) (db : Db) (n : Managed)
    → at_address addr n.slave ≡ ok true
    → IsBalanced n
    → Balances (put_slave addr why (some db) n)
unfolding put_slave
put_slave-Balances addr why db n t ((h, e), q) =
    bind-Balances (put_first addr (some db) n.slave) _ (λ (found, ss) p.
      let (h', e') = put_first-AllOpen addr db n.slave ss found h t p in
      ((h', e' ∙ e), subst (λ k. Below k n.round_robin_q) (sym e') q))
