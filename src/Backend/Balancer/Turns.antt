-- ===== src/Backend/Balancer/Turns.antt =====
-- `GetNextSlave` goes through the queue in order and comes round to its start.
use kingshard.Prelude.{
  ℕ, zero, suc, ◌+◌, ◌%◌, ◌<◌, List, [], ◌∷◌, map, All, false, ◌≡◌, refl, sym, ap, ◌∙◌, ◌⊎◌, inl,
  inr, arith, leb, ◌==◌, length, get_elem?, drop, Option, none, some,
}
use native.Mathlib.Nat.{mod-eq_of_lt, mod_self}
use mathlib.Core.Path.{subst}
use kingshard.Outcome.{Result, ok, ◌>>=◌}
use kingshard.Backend.Balancer.{Node, read, slave_at, next_of_many, get_next_slave}

-- The queue names slaves that the node has, and the next turn lies in it.
pub record IsValid (n : Node) : Type 0 where
  pub in_range : All (λ i. i < length n.slave) n.round_robin_q
  pub next : n.last_slave_index < length n.round_robin_q

-- The slave at a position that the node has.
abbrev pub slave_or_nil : List (Option ℕ) → ℕ → Option ℕ
slave_or_nil [] i = none
slave_or_nil (s ∷ ss) zero = s
slave_or_nil (s ∷ ss) (suc i) = slave_or_nil ss i

slave_in_range :
    (ss : List (Option ℕ)) (i : ℕ) → i < length ss → get_elem? ss i ≡ some (slave_or_nil ss i)
slave_in_range [] i h = elim h [ ]
slave_in_range (s ∷ ss) zero h = refl
slave_in_range (s ∷ ss) (suc i) h = slave_in_range ss i (omega arith)

All-drop : (P : ℕ → Type 0) (i : ℕ) (q : List ℕ) → All P q → All P (drop i q)
All-drop P zero q a = a
All-drop P (suc i) [] a = tt
All-drop P (suc i) (x ∷ q) a = All-drop P i q a.1

-- What is left of the queue from a position on.
drop_cons :
    (q : List ℕ) (i x : ℕ) (rest : List ℕ)
    → drop i q ≡ x ∷ rest
    → (get_elem? q i ≡ some x) × (drop (suc i) q ≡ rest) × (length q ≡ i + 1 + length rest)
drop_cons [] zero x rest e = cc
drop_cons [] (suc i) x rest e = cc
drop_cons (y ∷ q) zero x rest e = ground arith
drop_cons (y ∷ q) (suc i) x rest e = let (a, b, c) = drop_cons q i x rest e in (a, b, omega arith)

read_lem : (q : List ℕ) (i x : ℕ) → get_elem? q i ≡ some x → read q i ≡ ok x
unfolding read
read_lem q i x e = rw (e, read) refl

slave_at_lem : (n : Node) (x : ℕ) → x < length n.slave → slave_at n x ≡ ok (slave_or_nil n.slave x)
slave_at_lem n x h = rw (slave_in_range n.slave x h, slave_at) refl

slave_there : (ss : List (Option ℕ)) (x : ℕ) → x < length ss → leb (length ss) x ≡ false
slave_there ss x h = ground arith

not_equal : (a b : ℕ) → b < a → (a == b) ≡ false
not_equal a b h = ground arith

one_or_more : (len i : ℕ) → i < len → ((len ≡ 1) × (i ≡ 0)) ⊎ (1 < len)
one_or_more len i h = ground arith

next_of_single : (i : ℕ) {len : ℕ} → i ≡ 0 → len ≡ 1 → (i + 1) % len ≡ 0
next_of_single i e f = rw e (rw f refl)

-- The call that finds several turns.
next_of_many-turn :
    (n : Node) (i x : ℕ)
    → n.last_slave_index % length n.round_robin_q ≡ i
    → get_elem? n.round_robin_q i ≡ some x
    → x < length n.slave
    → next_of_many n
      ≡ ok
          (slave_or_nil n.slave x, record n { last_slave_index = (i + 1) % length n.round_robin_q })
unfolding next_of_many
next_of_many-turn n i x ei ex hx = rw ei (
    rw (read_lem n.round_robin_q i x ex)
      (rw (slave_there n.slave x hx) (rw (slave_at_lem n x hx) refl)))

-- The call that finds one turn only, and leaves the node as it is.
next-single :
    (n : Node) (x : ℕ)
    → length n.round_robin_q ≡ 1
    → get_elem? n.round_robin_q 0 ≡ some x
    → x < length n.slave
    → get_next_slave n ≡ ok (slave_or_nil n.slave x, n)
unfolding get_next_slave
next-single n x one ex hx =
    rw one (rw (read_lem n.round_robin_q 0 x ex) (rw (slave_at_lem n x hx) refl))

next-many : (n : Node) → 1 < length n.round_robin_q → get_next_slave n ≡ next_of_many n
unfolding get_next_slave
next-many n h =
    rw (not_equal (length n.round_robin_q) 0 (omega arith))
      (rw (not_equal (length n.round_robin_q) 1 h) refl)

with_index : (n : Node) (i : ℕ) → n.last_slave_index ≡ i → record n { last_slave_index = i } ≡ n
with_index n i e = ap (λ (j : ℕ). record n { last_slave_index = j }) (sym e)

-- A call with the next turn in the queue, of one turn or of several.
next-turn :
    (n : Node) (i x : ℕ)
    → n.last_slave_index ≡ i
    → i < length n.round_robin_q
    → get_elem? n.round_robin_q i ≡ some x
    → x < length n.slave
    → get_next_slave n
      ≡ ok
          (slave_or_nil n.slave x, record n { last_slave_index = (i + 1) % length n.round_robin_q })
next-turn n i x ei hi ex hx = elim (one_or_more (length n.round_robin_q) i hi) [
  | inl (one, first) ↦
      next-single n x one (subst (λ (j : ℕ). get_elem? n.round_robin_q j ≡ some x) first ex) hx
      ∙ ap (λ (m : Node). ok (slave_or_nil n.slave x, m))
          (sym (
            with_index n ((i + 1) % length n.round_robin_q)
              (ei ∙ first ∙ sym (next_of_single i first one))))
  | inr many ↦
      next-many n many
      ∙ next_of_many-turn n i x (ap (λ (j : ℕ). j % length n.round_robin_q) ei ∙ mod-eq_of_lt hi) ex
          hx
]

the_size : (i len : ℕ) → len ≡ i + 1 + 0 → len ≡ i + 1
the_size i len e = omega arith

after : (i : ℕ) → i + 1 ≡ suc i
after i = omega arith

last_turn : (i len : ℕ) → len ≡ i + 1 + 0 → (i + 1) % len ≡ 0
last_turn i len e = rw (the_size i len e) (mod_self (i + 1))

next_turn : (i len : ℕ) → i + 1 < len → (i + 1) % len ≡ suc i
next_turn i len h = mod-eq_of_lt h ∙ after i

-- Successive calls, with the slaves they return.
unfoldable pub serve : ℕ → Node → Result (List (Option ℕ) × Node)
serve zero n = ok ([], n)
serve (suc k) n = do (db, n') ← get_next_slave n; (dbs, n'') ← serve k n'; ok (db ∷ dbs, n'')

serve-suc :
    (k : ℕ) (n n' n'' : Node) (db : Option ℕ) (dbs : List (Option ℕ))
    → get_next_slave n ≡ ok (db, n')
    → serve k n' ≡ ok (dbs, n'')
    → serve (suc k) n ≡ ok (db ∷ dbs, n'')
unfolding serve
serve-suc k n n' n'' db dbs e f = rw e (rw f refl)

-- The turns that are left in the queue, and the first one after them.
serve-rest :
    (rest : List ℕ) (x i : ℕ) (n : Node)
    → All (λ i. i < length n.slave) n.round_robin_q
    → n.last_slave_index ≡ i
    → drop i n.round_robin_q ≡ x ∷ rest
    → serve (suc (length rest)) n
      ≡ ok (map (slave_or_nil n.slave) (x ∷ rest), record n { last_slave_index = 0 })
unfolding serve
serve-rest [] x i n a ei ed =
    let (ex, left, size) = drop_cons n.round_robin_q i x [] ed in
    let hx =
      (subst (λ (l : List ℕ). All (λ i. i < length n.slave) l) ed
        (All-drop (λ i. i < length n.slave) i n.round_robin_q a)).0 in
    rw (next-turn n i x ei (omega arith) ex hx) (
      ap (λ (j : ℕ). ok (slave_or_nil n.slave x ∷ [], record n { last_slave_index = j }))
        (last_turn i (length n.round_robin_q) size))
serve-rest (y ∷ rest) x i n a ei ed =
    let (ex, left, size) = drop_cons n.round_robin_q i x (y ∷ rest) ed in
    let hx =
      (subst (λ (l : List ℕ). All (λ i. i < length n.slave) l) ed
        (All-drop (λ i. i < length n.slave) i n.round_robin_q a)).0 in
    serve-suc (suc (length rest)) n
      (record n { last_slave_index = (i + 1) % length n.round_robin_q })
      (record n { last_slave_index = 0 }) (slave_or_nil n.slave x)
      (map (slave_or_nil n.slave) (y ∷ rest)) (next-turn n i x ei (omega arith) ex hx)
      (serve-rest rest y (suc i) (record n { last_slave_index = (i + 1) % length n.round_robin_q })
        a (next_turn i (length n.round_robin_q) (omega arith)) left)

some_turn : (q : List ℕ) → 0 < length q → (x : ℕ) × (rest : List ℕ) × (q ≡ x ∷ rest)
some_turn [] h = elim h [ ]
some_turn (x ∷ q) h = (x, q, refl)

-- From the start of its queue, a node with a valid queue answers as many calls as the queue has
-- turns, none of them with an error, by the slaves that the queue names, in its order, and is then
-- at the start again.
pub serve_round :
    (n : Node)
    → IsValid n
    → n.last_slave_index ≡ 0
    → serve (length n.round_robin_q) n ≡ ok (map (slave_or_nil n.slave) n.round_robin_q, n)
serve_round n v e =
    let (x, rest, eq) = some_turn n.round_robin_q (omega (arith, v.next)) in
    subst (λ (q : List ℕ). serve (length q) n ≡ ok (map (slave_or_nil n.slave) q, n)) (sym eq)
      (serve-rest rest x 0 n v.in_range e eq
        ∙ ap (λ (m : Node). ok (map (slave_or_nil n.slave) (x ∷ rest), m)) (with_index n 0 e))
