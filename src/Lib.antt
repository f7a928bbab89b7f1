-- ===== src/Lib.antt =====
-- A model of the authenticator service: registration and login with a password and a second
-- factor, JWT tokens that can be revoked and refreshed, one-time codes, and the HTTP API around them.
--
-- How the program is put together. Handlers of internal/loginapi, signupapi, tokenapi, contactapi,
-- totpapi and deviceapi answer requests. Middleware of internal/httpapi authenticates a request, puts
-- its token into the context, limits rates, and turns results and errors into responses. The handlers
-- call the services internal/token, otp and password, and storage, messaging and WebAuthn by the
-- interfaces of authenticator.go.
--
-- How it is modelled.
--   * Effect: a Go function with side effects is a function from a state of the outside world to a value,
--     an error or a panic, each with the world it leaves. Effect/Ensures has the rules by which a
--     property of what a function returns follows from its steps.
--   * External: the clock, random bytes, Redis, and the libraries for hashing, encoding, JWT, TOTP and
--     bcrypt are operations of a record, of which nothing is known but what a theorem assumes; the laws
--     that theorems assume are records in External/Laws. Examples/World is one world that has all of it,
--     and Examples/Laws shows that it satisfies the laws.
--   * Errors: errors.go. Domain: the entities of authenticator.go. Repository: its interfaces.
--     Requests: the bodies of requests. System: the configuration of all services, and what they share.
--   * Crypto, Password, Otp, Token (with Token/Create, Validate and Refresh): internal/crypto, password,
--     otp and token. Function names are those of the source in lower case with underscores: service.Create
--     is create, genOTPAndHash is gen_otp_and_hash.
--   * Http: internal/httpapi, with Http/RateLimit for ratelimit.go.
--   * LoginApi, SignupApi, TokenApi, ContactApi, TotpApi, DeviceApi: the handlers and decoders of the
--     packages of these names, and internal/contactchecker in ContactApi.
--   * Postgres: clients and transactions of internal/postgres/client.go. All clients share their
--     repositories, so that the client that a repository points to is part of the state. Postgres/Users
--     is user_repo.go; Postgres/Records is device_repo.go, login_history_repo.go, and the whole as the
--     repository manager that the handlers call. The database driver is a record of operations.
--   * Publisher: internal/msgpublisher, which fills the templates of messages. MessageQueue:
--     internal/msgrepo and internal/msgconsumer as steps of a queue with its waiting messages and its
--     workers; the queue takes what the publisher accepted. Providers: internal/mail, sendgrid and
--     twilio, and how a worker calls them. MessagingService stands for all of this in the handlers.
--   * WebAuthn: internal/webauthn over a record of what the library does; its service has the form of
--     the interface that the handlers call.
--   * Routes: the interfaces of the APIs. Routes/Apis has the SetupHTTPHandler functions of the six
--     packages, and Routes/Router the router of cmd/api/main.go. Which route a request matches is left
--     to a parameter for the multiplexer.
--   * Configuration: the options and defaults of the config.go files and the flags of main.go.
--     Deployment: the services on the repositories of internal/postgres.
--   * StartUp: the connections that cmd/api/main.go makes, and all services that it creates from them
--     by the options of their packages, one child module for each; StartUp/Program is the order of
--     main.go. A handler reads the settings and the shared services from System.
--   * Entropy: internal/entropy, as steps of tasks that share a reader behind a lock.
--   * Common: lists, texts and tests on native numbers. Examples: concrete runs.
--
-- Numbers and bounds. Times are nanoseconds since 1970 and durations nanoseconds, as natural numbers;
-- seconds are whole quotients, as Unix() gives them. Wrap-around of time.Time is not modelled. The
-- remainder by a byte in internal/crypto is written out. No function needs fuel: all loops run over lists.
--
-- Not modelled: the parsing of flags and files, the CORS handler, the HTTP server and its shutdown,
-- which are calls of libraries; and the execution of SQL. The text that a format string adds to an error message is left out. A loop
-- over a Go map takes its entries in the order of a list.
pub mod Common
pub mod Errors
pub mod Effect
pub mod Domain
pub mod External
pub mod Repository
pub mod Requests
pub mod System
pub mod Crypto
pub mod Password
pub mod Otp
pub mod Token
pub mod Http
pub mod LoginApi
pub mod SignupApi
pub mod TokenApi
pub mod ContactApi
pub mod TotpApi
pub mod DeviceApi
pub mod Postgres
pub mod MessageQueue
pub mod WebAuthn
pub mod Configuration
pub mod Deployment
pub mod Entropy
pub mod Examples
pub mod Providers
pub mod Publisher
pub mod Routes
pub mod StartUp
