-- ===== src/Lib.antt =====
-- GophKeeper's server: clients register, log in and keep sealed secrets with metadata.
--
-- The command reads its configuration, connects and migrates the database, sets up the gRPC server
-- and serves until a signal.
--
-- A gRPC method passes an interceptor (unary methods only), reaches a handler, and the handler
-- calls a use case or the session manager. These work on repositories, which run SQL queries on
-- PostgreSQL and retry what fails by a lost connection.
--
-- Which file models what (paths from the repository's root):
--   Base, Base/*              error values and chains, outcomes, programs on a state, lists, decimal
--                             texts, base64, UTF-8
--   Model                     internal/model/model.go
--   Keeper, Keeper/*          internal/service/server/keeper/keeper.go: Service over ObjectRepo and
--                             MetadataRepo; Add, Delete, Read and Sync give all ways out of its
--                             operations, by what the calls of the two stores return
--   Router, Router/*          internal/repo/router/router.go; UseCases joins it with Keeper, as
--                             setupRepos does
--   Retry, Retry/*            WithRetry and isRetryableError of internal/repo/db/common.go
--   Convert, Convert/*        internal/adapters/grpc/metadata/converter.go with the getters of
--                             proto/v1/metadata/metadata.pb.go
--   Database, Database/*,
--   Sqlc                      the tables of sql/migrations, the queries of
--                             internal/repo/db/internal/sqlc
--   Hash, Hash/*              pkg/hash/hash.go
--   Config, Config/*          pkg/config/config.go
--   Command, Command/*        cmd/server/main.go
--   Tokens, Tokens/*          pkg/tokens/tokens.go
--   Session, Session/*        pkg/session/session.go
--   Repo, Repo/*              internal/repo/db: user_repo.go, token_repo.go, metadata_repo.go,
--                             sealed_repo.go
--   Api, Api/*                internal/api/v1/keeper_service.go, auth_service.go, health_service.go;
--                             Interceptor and Server are internal/api/api.go, Server/Calls what a
--                             client reaches through it; KeeperService/Uploads is the handler Add
--                             over any use case
--   Keeper/Mocks, Session/Mocks, Api/Fakes
--                             the fakes of the Go tests: mock_helpers.go of the three packages and
--                             internal/api/v1/test-helpers.go, with the tests' tables of codes
--   DbManager, DbManager/*    internal/service/server/dbmanager/dbmanager.go
-- Modules named Tests hold runs and the theorems at concrete inputs.
--
-- A Go function that may fail or panic is a program: from a state to an outcome (ok, err or panic)
-- and the next state, which stays as far as the function came. Interfaces are records of programs
-- over any state. Functions and methods keep their names in snake case.
--
-- Fuel: WithRetry runs on as much as it has attempts left, as each attempt takes one; the read loop
-- of SealedRepo.Put runs on one more than the bytes that are left to read, as a round reads at least
-- one; with a buffer of size 0, where the code does not end, the model panics. Streams from a client
-- are the list of what Recv returns, so loops over them are structural; the loop over
-- Recv itself is run in Api/Fakes/Streams, on as much fuel as the stream has results.
--
-- Parameters, for what is not in the repository: PostgreSQL's connection failures and random UUIDs,
-- the text form of UUIDs, golang-jwt, golang-migrate, pgxpool, grpc-go, timestamppb, SHA-256, HMAC,
-- argon2, caarlos0/env, the clock and the source of randomness. What fmt, strconv, strings, flag and
-- encoding/base64 do is written out, in Base/Texts, Base/Base64, Hash/Phc and Config.
--
-- The two stores of the keeper are parameters of its use cases, with no assumption on what they do:
-- the ones that the repository has do not do all that keeper.go says of its interfaces.
--
-- Not modelled: logging, timeouts other than as errors of a store, signals, the reading of key files,
-- generated message code beyond fields and getters, what testify and the generated mocks check of
-- the calls of a fake, and requests that run at the same time.
pub mod Base
pub mod Model
pub mod Keeper
pub mod Router
pub mod Retry
pub mod Convert
pub mod Database
pub mod Sqlc
pub mod Tokens
pub mod Session
pub mod Repo
pub mod Api
pub mod DbManager
pub mod Hash
pub mod Config
pub mod Command
