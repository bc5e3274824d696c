-- ===== src/Router/Setup/Reach.antt =====
-- A rule that a configuration gives: its tables, and that a statement finds the node of its rows.
use kingshard.Prelude.{
  ltb_ℤ, ◌+ℤ◌, ℕ, zero, suc, ℤ, pos, ◌≤ℤ◌, Bytes, List, [], All, IsSorted, ◌≡◌, refl, sym, subst,
  ap, ◌∙◌, inl, inr, arith, ◌==◌, if◌then◌else◌, length,
}
use kingshard.Outcome.{Result, Error, ok, err, panic, both_returned}
use kingshard.Outcome.Error.{range_space_not_equal_tables, locations_count, date_range_count}
use kingshard.Outcome.Panic.{make_slice_len}
use kingshard.Config.{ShardConfig}
use kingshard.Router.IntList.{count_from}
use kingshard.Router.Shard.{
  Shard, hash_shard, num_range_shard, parse_num_sharding, ranges_from, NumKeyRange,
}
use kingshard.Router.Rule.{
  Rule, RuleType, default, hash, range, date_year, date_month, date_day, other,
}
use kingshard.Router.DateRange.{Calendar, parse_day_range, parse_month_range, parse_year_range}
use kingshard.Router.DateRange.Rises.{NextRises, date_ranges_rise}
use kingshard.Router.Setup.{
  Tables, locate, add_dates, rule_type, parse_tables, parse_shard, parse_rule,
}
use kingshard.Router.Setup.Tables.{IsFilled, length-keys}
use kingshard.Router.Setup.Filled.{total, sum_ints-total, locate-IsFilled, add_dates-IsFilled}

empty-IsFilled : (n : ℕ) → IsFilled n ([], [])
empty-IsFilled n = record { keyed = refl; sorted = tt; nodes = tt }

guarded_ok :
    {A : Type 0} (a b : ℕ) (r : Result A) (e : Error) (v : A)
    → (if a == b then r else err e) ≡ ok v
    → (a ≡ b) × (r ≡ ok v)
guarded_ok a b r e v h = ground arith

same_tables : {a b : Tables} → ok a ≡ ok b → a ≡ b
same_tables q = cc

no_tables : [] ≡ count_from (pos 0) 0
unfolding count_from
no_tables = refl

same_rule : {a b : Rule} → ok a ≡ ok b → a ≡ b
same_rule q = cc

length-count_from : (s : ℤ) (n : ℕ) → length (count_from s n) ≡ n
unfolding count_from
length-count_from s zero = refl
length-count_from s (suc n) = ap suc (length-count_from (s +ℤ pos 1) n)

tables_count :
    {n k : ℕ} (st : Tables) → IsFilled n st → st.0 ≡ count_from (pos 0) k → length st.1 ≡ k
tables_count {n} {k} st f t =
    sym (length-keys st.1) ∙ ap length f.keyed ∙ ap length t ∙ length-count_from (pos 0) k

ranges_of :
    (n : ℕ) (limit : ℤ) (rs : List NumKeyRange)
    → (if ltb_ℤ (pos n) (pos 0) then panic make_slice_len else ok (ranges_from 0 n limit)) ≡ ok rs
    → ranges_from 0 n limit ≡ rs
ranges_of n limit rs e = ground arith

module _ (cal : Calendar) (cfg : ShardConfig) (counts : All (λ l. pos 0 ≤ℤ l) cfg.locations) where
  located :
      (st : Tables)
      → (if length cfg.locations == length cfg.nodes
          then ok (locate 0 (pos 0) cfg.locations ([], []))
          else err locations_count)
        ≡ ok st
      → IsFilled (length cfg.nodes) st × (st.0 ≡ count_from (pos 0) (total cfg.locations))
  located st e =
      let (n, q) =
        guarded_ok (length cfg.locations) (length cfg.nodes)
          (ok (locate 0 (pos 0) cfg.locations ([], []))) locations_count st e in
      subst
        (λ (z : Tables).
          IsFilled (length cfg.nodes) z × (z.0 ≡ count_from (pos 0) (total cfg.locations)))
        (same_tables q)
        (let (f, t) =
            locate-IsFilled (length cfg.nodes) 0 0 cfg.locations ([], []) counts (omega (arith, n))
              (empty-IsFilled (length cfg.nodes)) no_tables in
          (f, t ∙ ap (λ (k : ℕ). count_from (pos 0) k) (omega arith)))

  -- What a configuration of type hash gives.
  pub hash_rule :
      (r : Rule)
      → rule_type cfg.kind ≡ hash
      → parse_rule cal cfg ≡ ok r
      → (r.kind ≡ hash)
        × (r.shard ≡ hash_shard (total cfg.locations))
        × (r.sub_table_indexs ≡ count_from (pos 0) (total cfg.locations))
        × IsFilled (length r.nodes) (r.sub_table_indexs, r.table_to_node)
  unfolding parse_rule parse_tables parse_shard
  hash_rule r k e =
      let (st, et, e') = both_returned (parse_tables cal hash cfg) _ (rw (k, parse_rule) at e) in
      let (f, t) = located st et in
      subst
        (λ (z : Rule).
          (z.kind ≡ hash)
          × (z.shard ≡ hash_shard (total cfg.locations))
          × (z.sub_table_indexs ≡ count_from (pos 0) (total cfg.locations))
          × IsFilled (length z.nodes) (z.sub_table_indexs, z.table_to_node))
        (same_rule e') (refl, ap hash_shard (tables_count st f t), t, f)

  -- What a configuration of type range gives.
  pub range_rule :
      (r : Rule)
      → rule_type cfg.kind ≡ range
      → parse_rule cal cfg ≡ ok r
      → (r.kind ≡ range)
        × (r.shard ≡ num_range_shard (ranges_from 0 (total cfg.locations) cfg.table_row_limit))
        × (r.sub_table_indexs ≡ count_from (pos 0) (total cfg.locations))
        × IsFilled (length r.nodes) (r.sub_table_indexs, r.table_to_node)
  unfolding parse_rule parse_tables parse_shard parse_num_sharding
  range_rule r k e =
      let (st, et, e') = both_returned (parse_tables cal range cfg) _ (rw (k, parse_rule) at e) in
      let (f, t) = located st et in
      let (sh, es, e'') = both_returned (parse_shard range st cfg) _ e' in
      let (rs, er, e3) =
        both_returned (parse_num_sharding cfg.locations cfg.table_row_limit) _ es in
      let (n, q) =
        guarded_ok (length rs) (length st.1) (ok (num_range_shard rs)) range_space_not_equal_tables
          sh e3 in
      subst
        (λ (z : Rule).
          (z.kind ≡ range)
          × (z.shard ≡ num_range_shard (ranges_from 0 (total cfg.locations) cfg.table_row_limit))
          × (z.sub_table_indexs ≡ count_from (pos 0) (total cfg.locations))
          × IsFilled (length z.nodes) (z.sub_table_indexs, z.table_to_node))
        (same_rule e'')
        (refl, sym (same_shard q) ∙ ap num_range_shard (sym (the_ranges rs er)), t, f)
    where
      same_shard : {a b : Shard} → ok a ≡ ok b → a ≡ b
      same_shard q = cc

      the_ranges :
          (rs : List NumKeyRange)
          → parse_num_sharding cfg.locations cfg.table_row_limit ≡ ok rs
          → ranges_from 0 (total cfg.locations) cfg.table_row_limit ≡ rs
      the_ranges rs e =
          ranges_of (total cfg.locations) cfg.table_row_limit rs
            (rw (sum_ints-total cfg.locations counts, parse_num_sharding) at e)

module _ (cal : Calendar) (rises : NextRises cal) (cfg : ShardConfig)
    (counts : All (λ l. pos 0 ≤ℤ l) cfg.locations) where
  dated :
      (parse : Bytes → Result (List ℤ)) (st : Tables)
      → ((d : Bytes) (l : List ℤ) → parse d ≡ ok l → IsSorted l)
      → (if length cfg.date_range == length cfg.nodes
          then add_dates parse 0 cfg.date_range ([], [])
          else err date_range_count)
        ≡ ok st
      → IsFilled (length cfg.nodes) st
  dated parse st sorts e =
      let (n, q) =
        guarded_ok (length cfg.date_range) (length cfg.nodes)
          (add_dates parse 0 cfg.date_range ([], [])) date_range_count st e in
      add_dates-IsFilled parse (length cfg.nodes) 0 cfg.date_range ([], []) st sorts
        (omega (arith, n)) (empty-IsFilled (length cfg.nodes)) q

  tables-IsFilled :
      (k : RuleType) (st : Tables) → parse_tables cal k cfg ≡ ok st → IsFilled (length cfg.nodes) st
  unfolding parse_tables
  tables-IsFilled hash st e = (located cal cfg counts st e).0
  tables-IsFilled range st e = (located cal cfg counts st e).0
  tables-IsFilled date_day st e =
      dated (parse_day_range cal) st (λ d l q. date_ranges_rise cal rises d l (inl q)) e
  tables-IsFilled date_month st e =
      dated parse_month_range st (λ d l q. date_ranges_rise cal rises d l (inr (inl q))) e
  tables-IsFilled date_year st e =
      dated parse_year_range st (λ d l q. date_ranges_rise cal rises d l (inr (inr q))) e
  tables-IsFilled default st e =
      subst (IsFilled (length cfg.nodes)) (same_tables e) (empty-IsFilled (length cfg.nodes))
  tables-IsFilled (other s) st e =
      subst (IsFilled (length cfg.nodes)) (same_tables e) (empty-IsFilled (length cfg.nodes))

  -- A configuration whose table counts are not negative gives, where `parseRule` accepts it, a rule
  -- whose sub-tables rise strictly, and which knows for each of them, and for no other table, one of
  -- its own nodes; the package time is relied on to write rising dates.
  pub parse_rule-IsFilled :
      (r : Rule)
      → parse_rule cal cfg ≡ ok r
      → IsFilled (length r.nodes) (r.sub_table_indexs, r.table_to_node)
  unfolding parse_rule
  parse_rule-IsFilled r e =
      let (st, et, e') = both_returned (parse_tables cal (rule_type cfg.kind) cfg) _ e in
      let (sh, es, e'') = both_returned (parse_shard (rule_type cfg.kind) st cfg) _ e' in
      subst (λ (z : Rule). IsFilled (length z.nodes) (z.sub_table_indexs, z.table_to_node))
        (same_rule e'') (tables-IsFilled (rule_type cfg.kind) st et)
