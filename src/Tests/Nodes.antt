-- ===== src/Tests/Nodes.antt =====
-- A node with the slaves a, of weight 1, and b, of weight 2, whose second one is put down.
use kingshard.Prelude.{
  ℕ, pos, Bytes, codes, eqb_bytes, ◌+ℤ◌, split_on, trim, [], ◌∷◌, none, some, false, true, ◌≡◌,
  refl,
}
use kingshard.Outcome.{Result, ok}
use kingshard.Strconv.{parse_int}
use kingshard.Backend.Pool.{Db, is_unknown, is_down, close_db}
use kingshard.Backend.Balancer.{
  gcd, minimum, gcd_down, is_common, quot, sum_turns, fill, mix, build_queue,
}
use kingshard.Backend.Nodes.{
  Managed, address, weight, balance, down_first, down_slave, parse_loop, parsed, parse_slave,
}
use kingshard.Backend.Nodes.Balanced.{IsBalanced}
use kingshard.Backend.Nodes.Balanced.Runs.{rested, stepped, downed, parsed_again, Runs-IsBalanced}

abbrev opened_at : Bytes → Db
opened_at at = record {
  addr = at;
  db = [];
  state = is_unknown;
  max_conn_num = 2;
  init_conn_num = 2;
  idle_conns = some [];
  cache_conns = some [];
  check_conn = none;
  last_ping = pos 0;
  push_conn_count = 2;
  pop_conn_count = 0;
}

abbrev opens_all : Bytes → ℕ → Result Db
opens_all at i = ok (opened_at at)

abbrev bare : Managed
bare = record {
  master = none;
  slave_made = false;
  slave = [];
  last_slave_index = 0;
  round_robin_q = [];
  slave_weights = [];
}

abbrev paired : Managed
paired = record bare {
  slave_made = true;
  slave = some (opened_at (codes "a")) ∷ some (opened_at (codes "b")) ∷ [];
  round_robin_q = 0 ∷ 1 ∷ 1 ∷ [];
  slave_weights = pos 1 ∷ pos 2 ∷ [];
}

abbrev halved : Managed
halved = record paired {
  slave =
      some (opened_at (codes "a"))
      ∷ some (record (close_db (opened_at (codes "b"))) { state = is_down })
      ∷ [];
}

bare_to_paired : parse_slave opens_all [] (codes "a@1,b@2") bare ≡ ok (none, paired)
unfolding parse_slave parse_loop parsed address weight balance build_queue gcd minimum gcd_down
    is_common quot sum_turns fill mix parse_int split_on trim ◌+ℤ◌
bare_to_paired = refl

paired_to_halved : down_slave (codes "b") is_down paired ≡ ok (none, halved)
unfolding down_slave down_first eqb_bytes
paired_to_halved = refl

Runs-IsBalanced_example : IsBalanced halved
Runs-IsBalanced_example =
    Runs-IsBalanced opens_all bare halved
      (stepped bare paired halved (parsed_again [] (codes "a@1,b@2") bare paired bare_to_paired) (
        stepped paired halved halved
          (downed (codes "b") is_down none paired halved paired_to_halved) (rested halved)))
      ((tt, refl), tt)
