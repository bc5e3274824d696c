-- ===== src/Lib.antt =====
-- kingshard is a MySQL proxy that spreads one table over many sub-tables and database nodes. This
-- library models the parts that decide where a statement goes and how its bytes are read.
--
-- The parts and how they meet. The SQL parser (sqlparser) gives a syntax tree. The router
-- (proxy/router) keeps a rule for every sharded table. A rule has a shard, which finds the
-- sub-table of one value of the sharding key, and a plan applies it to the WHERE criterion: each
-- condition on the key becomes a sorted list of sub-table indexes, AND and OR merge these lists,
-- and a condition that says nothing about the key becomes the list of all sub-tables. For each of
-- these the router writes a statement out of the tree and gives it to the sub-table's node. The
-- node (backend) picks one of its slaves for a read, and mysql reads and writes the packets.
--
-- Where each part is modelled:
--   Prelude, Outcome: lists and integers over the native numbers; a call's result, which is a
--     value, a returned error, or a panic.
--   Strconv: strconv.ParseInt and ParseUint in base 10 with 64 bits and crc32.ChecksumIEEE, by
--     their documented behaviour. Decimal has FormatInt and the verb %04d.
--   Sqlparser.Ast: the nodes of sqlparser/ast.go that criteria and SELECT statements are made of.
--     A comparison carries its address as a number, since the plan remembers one by its pointer.
--   Sqlparser.Format, Sqlparser.Statements: Format of these nodes, and the statements that the
--     router plans with theirs; Keywords has the reserved words of sqlparser/token.go, which are
--     printed between backquotes. Limits has RewriteLimit.
--   Sqlparser.Literals: scanString of sqlparser/token.go, which reads what encodeSql of
--     sqltypes/sqltypes.go prints.
--   Router.IntList: the list operations at the end of proxy/router/planbuilder.go (makeList,
--     makeLeList, makeGeList, makeLtList, makeGtList, makeBetweenList, interList, unionList,
--     differentList), with Merge, Slices and Between for what they compute.
--   Router.Shard: HashValue, NumValue and the shards of proxy/router/shard.go, and NumKeyRange and
--     ParseNumSharding of proxy/router/numkey.go; Ranges for number sharding as a whole.
--   Config: SchemaConfig and ShardConfig of config/config.go.
--   Router.DateRange: ParseDayRange, ParseMonthRange and ParseYearRange of proxy/router/numkey.go.
--   Router.Setup: parseRule and parseShard of proxy/router/router.go; Tables and Filled follow the
--     loops that number the tables, Reach and Whole go from a configuration to rules and routes.
--   Router.Registry: NewRouter, includeNode, NewDefaultRule, GetRule and checkUpdateExprs of
--     proxy/router/router.go. GetRule writes the database into the shared default rule, so that it
--     returns the router, too.
--   Router.Rule: Rule of proxy/router/router.go with FindNode, FindNodeIndex and FindTableIndex.
--   Router.Plan: Plan of proxy/router/planbuilder.go. Values has getValueType, getBoundValue and
--     getTableIndexByValue; Tuples getTableIndexsByTuple; Leaves getHashShardTableIndex,
--     getRangeShardTableIndex, getDateShardTableIndex and adjustShardIndex; Criteria getTableIndexs
--     and getTableIndexByBoolExpr; Routes calRouteIndexs, getInsertTableIndex, checkValuesType,
--     GetIRKeyIndex, cleanList and TindexsToNindexs. Qualifiers has what getValueType does to the
--     tree. Meaning is the specification: which rows satisfy a criterion, where
--     any column with the key's name is the row's key, as it is for the plan; Meaning.Owned reads
--     qualifiers, too, for statements with joined tables. Groups, Ordered, Finds,
--     Located and Returns hold the proofs.
--   Router.Rewrite: the statement of one sub-table, by rewriteSelectSql, resetQualifier and
--     rewriteWhereQualifier of proxy/router/router.go and rewriteWhereIn of
--     proxy/router/planbuilder.go. Names, Qualified, Unchanged, Recorded, Marked, Renamed and
--     Refines follow what the changes of the criterion mean for the rows of the sub-table.
--   Router.Build: generateSelectSql, generateInsertSql, generateUpdateSql, generateDeleteSql,
--     generateReplaceSql and generateTruncateSql of proxy/router/router.go; Plans has BuildPlan and
--     the builder of each statement. Sends, Counts, Delivers, Served and Inserted follow which node
--     gets which statements.
--   Mysql.Util: the length-encoded integers and strings of mysql/util.go.
--   Mysql.PacketIo: ReadPacket and WritePacket of mysql/packetio.go, with Frames for what one reads
--     of the other.
--   Backend.Conn: the session of a connection of backend/backend_conn.go, with Connect, Close,
-- Ping,
--     UseDB, Begin, Commit, Rollback, SetAutoCommit and SetCharset.
--   Backend.Pool: DB of backend/db.go with Open, PopConn, GetConnFromCache, GetConnFromIdle,
--     tryReuse, PushConn, closeConn, closeConnNotAdd, addIdleConn and Close, and BackendConn.Close.
--     Balance and Runs follow what happens to a pool, Reuse the session of what it hands out,
--     Served a server that answers, Closed a pool that was closed.
--   Backend.Balancer: Gcd, InitBalancer and GetNextSlave of backend/balancer.go.
--   Backend.Nodes: Node of backend/node.go with AddSlave, DeleteSlave, ParseMaster, ParseSlave,
--     UpDB, UpMaster, UpSlave, DownMaster, DownSlave and the guards of GetMasterConn. Balanced
--     follows how slaves, weights and queue fit together.
--   Proxy.Tokens: IsSqlSep of core/hack/hack.go, GetDBTable and GetInsertDBTable of
--     sqlparser/analyzer.go, and PARSE_TOKEN_MAP and SET_KEY_WORDS of mysql/const.go.
--   Proxy.Preshard: the handlers of proxy/server/conn_preshard.go, which send a statement to a node
--     as it stands or leave it to the planner; Dispatch has handleShowColumns, GetExecDB,
--     GetTransExecDB and what preHandleShard decides before it executes. Sharded and Unsharded
--     follow statements about a configured table and about another one.
--   Proxy.Execute: executeInMultiNodes and mergeExecResult of proxy/server/conn_query.go. The
--     goroutines of the nodes write to slots of their own and run one behind the other here. Slots
--     and Replies follow the results of the nodes into one list, Merged into one answer.
--   Tests: runs at concrete inputs.
--
-- Integers: a Go int or int64 is an integer, and an operation of the source that can leave 64 bits
-- is wrapped around where the model says so (to_u64, to_i64, wrap_i64); sums of table counts and
-- weights are taken to fit. Bytes are numbers. A pointer method that changes its receiver returns
-- the new record. Loops over slices are recursions on the list, and the loop of Gcd
-- counts its number down; ReadPacket and WritePacket run on fuel, of which one more than the length
-- of the buffer is enough, and FormatInt on 20 digits, which hold every number of 64 bits. An index
-- out of range, a nil or a failed conversion that panics in the source is a panic of the model, and
-- a panic ends the computation.
--
-- Parameters: the local time zone (LocalTime), the days that time.Parse reads and Format writes
-- (Calendar), the answers of a database server and the clock (Server), the maps of mysql/charset.go
-- (Charsets), the answer of OpenDB for an address, what a connection answers to a statement, the
-- draws of the random source of InitBalancer, and the order in which Go ranges over a map, which
-- visits the keys and nothing else.
--
-- Not modelled: the generated SQL grammar, sockets, what else a session does with a connection,
-- the merging of rows, the blacklist, the reading of configuration files, administration and
-- logging. Of sqlparser/ast.go, SET, DDL, SHOW and the admin statements, which are never routed,
-- and the panic of Format on an empty ValArg, which the grammar does not make.
-- mysql/sql_fingerprint.go is a copy of another project's code.
pub mod Backend
pub mod Config
pub mod Mysql
pub mod Outcome
pub mod Prelude
pub mod Proxy
pub mod Router
pub mod Sqlparser
pub mod Strconv
pub mod Tests
