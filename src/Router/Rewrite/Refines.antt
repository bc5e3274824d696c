-- ===== src/Router/Rewrite/Refines.antt =====
-- The criterion of a sub-table, with the values of that table alone in its IN list, says the same
-- of the rows that live in the table.
use kingshard.Router.Rule.{Rule}
use kingshard.Router.Plan.Values.{Plan}
use kingshard.Router.Plan.Tuples.{Groups}
use kingshard.Router.Plan.Meaning.{Meaning}
use kingshard.Router.Plan.Located.Keys.{Located}
use kingshard.Router.Rewrite.Recorded.{Recorded}
