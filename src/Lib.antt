-- ===== src/Lib.antt =====
-- A verification library for projx, the scaffolding tool that writes an application from component
-- templates and later brings template updates into the user's project.
--
-- The parts. A project is a directory with one directory for each component instance. A marker
-- (`.projx-component`) in it says which component it is, which files are pinned and which ORM and
-- features it has; `.projx` in the root says the same of the project. Discovery reads the markers,
-- pinning edits their skip lists, and an update writes the new template (the instances' files
-- without the pinned ones, then the root files) and merges it into the project in up to three
-- tiers, the second of which is a three-way merge file by file against a baseline. A feature adds
-- files and edits to instances. The backends that are written share a query engine, which turns the
-- parameters of a request into a query, read and change the records of each entity by a repository,
-- and find the user of a request and check its permissions. The auth
-- feature gives a backend users, sessions with rotating refresh tokens, second factors and resets of
-- passwords; its handlers share the tables of a database.
--
-- The files and the code they model:
--   Base         helpers: equality and `includes`, lists, sets and dictionaries of JavaScript, text
--   Skip         `matchesSkip` of cli/src/baseline.ts
--   Components   the tables of cli/src/utils.ts, `normalizeComponent`; Suggest has the edit distance
--                and `suggestComponent`, Packages the package managers, Orm the choice of an ORM
--   Project      markers and configuration: `parseMarker`, `writeComponentMarker`,
--                `upsertComponentMarker`, `readProjxConfig`, `writeProjxConfig` of cli/src/utils.ts
--                and `writeManagedProjx` of cli/src/baseline.ts; Updates has the package manager that
--                cli/src/update.ts records; Discover has
--                `discoverComponentsFromMarkers`
--   Pin          `classifyPattern`, `pin` and `unpin` of cli/src/pin.ts
--   Merge        `tryThreeWayMerge`, `lookupBaseContent` and `buildPathFallbacks` of
--                cli/src/baseline.ts; Rule states the three-way merge as a relation, Laws what a run
--                does to each path, Outcomes and Settled what that means for the user
--   Apply        `applyTemplate`, `saveBaselineRef`, `getBaselineRef` and `cleanupWorktree` of
--                cli/src/baseline.ts
--   Template     the root files of `writeTemplateToDir` (cli/src/baseline.ts) and `copyStaticFiles`
--                (cli/src/utils.ts); Instance has `copyComponent`, `removeSkippedFiles`,
--                `writeOneInstance`, `applyOrmProviderToInstance` and `applyOrmAddon`
--   Render       `render`, `renderLines` and `findBlockEnd` of cli/src/utils.ts; Blocks has the
--                templates as blocks and their meaning
--   Features     `applyTextPatch`, `sentinelFor`, `simpleHash` and `appendEnvExample` of
--                cli/src/features.ts; Targets has `parseFeatureFlag` and `validateFeatureTargets`
--   Query        the query engine of the generated API, express/src/modules/_base/query-engine.ts,
--                and Expand its express/src/modules/_base/expand.ts; the Fastify backend repeats both
--   Authz        the permissions of the generated API, express/src/middlewares/authz.ts; Tokens has
--                express/src/lib/jwt-verifier.ts, and Authenticate the middlewares authenticate.ts and
--                public-paths.ts, in the order of express/src/app.ts
--   Entities     the records of the generated API: express/src/modules/_base/repository.ts (Repository,
--                over the delegate of Store) and the routes of
--                express/src/modules/_base/auto-routes.ts (Routes)
--   Auth         the auth feature for Express and Prisma. Rows has the tables of
--                features/auth/express/prisma/files/src/modules/auth/routes.ts, Store what is asked of
--                Prisma, Services what is asked of other libraries and of a request, Responses the
--                answers, Password and Mfa password.ts and mfa.ts of
--                features/auth/express/common/files/src/modules/auth, Session and Jobs session.ts and
--                verification-jobs.ts, and Login, Challenge, Enrollment, Refresh, Account and Recovery
--                the handlers of routes.ts; Memory is a client that keeps its rows in lists
--
-- How state and operations correspond. A string is the list of its UTF-16 units. A directory is a
-- function from relative paths to contents, or a list of paths with contents where its files are
-- gone through; an object with arbitrary keys is an association list. An operation that writes is a
-- function to the new state; one that throws has an option or an outcome as its result. Loops over
-- lists are recursions on the list. The renderer calls itself on the body of a loop: its recursion
-- is on a number that starts above the number of lines, which every body is shorter than.
--
-- A handler is a function from the database and a request to the database and an answer, an error
-- among them; what it changed before an error stays. /refresh also takes what other requests do
-- between its calls of the database, and a number of attempts: three, which is the bound of its loop.
--
-- Bounds. `toLowerCase` acts on ASCII letters, paths are joined with a slash, JSON is parsed and
-- printed outside of the model, and skip lists hold strings. Git (`git show`, `git merge`,
-- `git merge-file`, commits), what JavaScript evaluates in a template, and what the generators print
-- are parameters.
--
-- Not modelled: prompts and messages, downloads and other processes, the file mode of what is
-- written, the text of generated files, the commands around an update, the generated applications
-- themselves but for the query engine, the entities, the permissions and the auth feature of the Express backend
-- (whose bodies are taken after their schema, with a configured JWT secret, one reading of the clock in
-- a handler, and no rate limits, mail or logs), and the parts in other languages.
pub mod Base
pub mod Skip
pub mod Components
pub mod Project
pub mod Pin
pub mod Merge
pub mod Apply
pub mod Auth
pub mod Entities
pub mod Template
pub mod Render
pub mod Query
pub mod Features
pub mod Authz
