-- ===== src/Lib.antt =====
-- A PostgreSQL front end for Db2 for i: the proxy accepts clients that speak the PostgreSQL v3
-- protocol, and runs their statements on jobs of a Mapepire server. A client's bytes are cut into
-- frames (src/postgres/wire.ts), handled one after the other by its session
-- (src/proxy/session.ts), which leases a job from the pool (src/mapepire/session-pool.ts), consults
-- the SQL modules (src/sql), and answers with frames.
--
-- Wire       src/postgres/wire.ts: Wire.Frames is `frame` and `consumeFrontendMessages`,
--            Wire.Decode the decoders of message bodies, Wire.Encode the backend frames;
--            Wire.Oids is src/postgres/oids.ts: the numbers, db2TypeToPg, the rows of pg_type.
-- Pool       src/mapepire/session-pool.ts, SessionJobPool: one function for each piece of a method
--            between two awaits; Pool.Run has the steps that can follow one another. Pool.Schema is
--            prepareSchema and its cache, with the catalogue as a parameter, and Pool.Capabilities is
--            src/mapepire/schema-capabilities.ts, which asks the catalogue.
-- Sql        Sql.Savepoint is src/sql/transactions.ts, Sql.Locks and Sql.LockQuery are
--            src/sql/advisory-lock.ts, Sql.SearchPath is src/sql/search-path.ts, Sql.LobIndex
--            src/sql/lob-index.ts, Sql.Deallocate src/sql/prepared-control.ts and Sql.Classifier
--            src/sql/classifier.ts;
--            Sql.Scan has the loops over quoted text of src/sql/translator.ts, and Sql.Translate its
--            rewrites in their order (Ddl.Serial has the serial columns). Sql.Regex is a matcher of
--            regular expressions that are patterns as data, with JavaScript's order of alternatives.
--            Sql.Environment is src/sql/environment.ts, Sql.Catalog src/sql/catalog.ts and
--            Sql.Stabilization src/mapepire/object-stabilization.ts. Sql.Split is
--            splitSimpleStatements of src/proxy/session.ts; Sql.Text and Sql.Identifier have the
--            text functions they share.
-- Ddl        src/sql/ddl-foreign-key.ts and src/sql/column-rename.ts. Ddl.Registry is what their
--            registries share, a map with the snapshot of a transaction; Ddl.Names the names in
--            statements; Ddl.ColumnTypes the types of columns; Ddl.ForeignKeys `parseCreateTable` of
--            the first, Ddl.TypeRegistry its registry and Ddl.TypeRegistry.Align the alignment of
--            foreign keys; Ddl.CreateTable `parseCreateTable` of the second, Ddl.References the
--            renaming of references, Ddl.Tables its registry, Ddl.AlterTable its parsers of ALTER
--            statements and Ddl.AddColumn the added columns.
-- Session    src/proxy/session.ts, ProxySession: Session.State has its fields and the monad of its
--            methods, Session.Backend the lease, Session.Execute `executeSql`, Session.Protocol the
--            messages and the loop of `handleRaw`. Session.Layer is the interface of the session to
--            the SQL modules, and `World` (Session.Backend) the pool and Mapepire: they are
--            parameters, and the theorems hold for every one of them. Session.Paging is
--            `executePaged` on a cursor of the database client, which is one call of `World` in the
--            rest of the session. Session.Lowering is `executeSql` between its firewall and the
--            run of the statement: it takes the translator, the LOB indexes and the two DDL
--            registries together, and fills the field `lower` of the interface. Session.Rows
--            reads the rows of the catalogue queries. What the database answers to both, to
--            the COMMIT behind such a query included, is a parameter.
-- Prelude    shared names, numbers, lists, results and texts.
--
-- A method that may throw changes the state and returns a result or a failure; what it changed or
-- sent before it threw stays. The frame loop runs on fuel, one round more than the buffer has bytes,
-- and a round takes five bytes or more. The loop of the object stabilization has its twenty attempts,
-- and that of the transport retry the number of retries that is configured. The loop over the pages of
-- a result runs on fuel, and the rows that the result has left are enough. A regular expression is
-- a pattern of Sql.Regex, or a function that gives what stands behind the match, written for the
-- texts it can match: the alternatives are tried in their order, and where one repeats greedily there
-- is no second way to match. A star of a pattern runs as many rounds as the text has characters.
--
-- Not modelled: the adapters for pgAdmin and SQLAlchemy, which recognize fixed texts of these clients
-- (the session asks them through the Layer interface), the configuration, the sockets, the log and
-- the health endpoint.
-- Texts are the bytes of their UTF-8 in Wire, and UTF-16 code units in Sql.
pub mod Prelude
pub mod Wire
pub mod Pool
pub mod Sql
pub mod Ddl
pub mod Session
