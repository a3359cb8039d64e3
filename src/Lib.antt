-- ===== src/Lib.antt =====
-- A verification library for the FastAPI-DDD-template: users, their sessions, and the HTTP
-- interface over them, on two stacks.
--
-- The program is a user administration service in layers. The domain holds the aggregate `User`
-- and its value objects. The application layer holds one use case per operation; a use case asks
-- an authentication service who calls, checks the role, runs against repositories inside a unit
-- of work, and reports to a presenter. The infrastructure layer implements repositories, unit of
-- work and sessions on SQLAlchemy and again on Django's ORM, passwords on bcrypt and tokens on
-- PyJWT. The interface layer maps HTTP requests to use cases, behind three middlewares, with
-- FastAPI on SQLAlchemy and with Django REST framework on Django's ORM.
--
-- The files, and the code that each one models:
--   Domain/Errors            app/domain/exceptions, app/application/exceptions: the exceptions, as
--                            values; a computation that may raise returns a `Result`
--   Domain/Uuid              the text form of `uuid.UUID`, which `UserId.from_str` reads
--   Domain/Values            app/domain/value_objects: a constructor returns a `Result`
--   Domain/User              app/domain/entities: `Entity` and `User`; a mutator returns the user
--                            with its new attributes
--   InvariantService         app/domain/services/user_invariant_service.py
--   Database                 app/infrastructure/db/sqlalchemy: the tables of models/ and the
--                            session; a repository method is a `Query` on the session
--   Database/Schema          the constraints that models/ declares, as a flush meets them
--   Database/UserRepo        adapters/repo.py, with the mapping of rows in Database/Mapping
--   Database/SessionRepo     user_session_repo.py
--   Ports                    app/domain/repositories and the unit of work, as a use case takes them:
--                            an interface, which Ports/Sql and Ports/Django fill; Ports/Laws is
--                            what the invariant of the tables needs of it
--   World                    the committed tables and the log, and actions on them
--   UnitOfWork/Manager       app/application/ports/uow.py: the abstract context manager
--   UnitOfWork               app/infrastructure/db/sqlalchemy/adapters/uow.py
--   Auth                     `TokenSessionAuthService` of adapters/services.py
--   Application              app/application: DTOs, presenters and the use cases
--   Security                 app/infrastructure/security
--   Http                     app/interface/http: requests and replies, presenters as responses,
--                            the routes, the middlewares and the services of the settings
--   DjangoOrm                app/infrastructure/db/django_orm: the repositories, the unit of work
--                            and the authentication service, on the tables of Database
--   Drf                      app/interface/drf: the request serializers, the views and the
--                            middlewares; Drf/Framework is what Django does with exceptions:
--                            it converts those of a view, and none of a middleware
--   Startup                  entrypoint.py and app/scripts: the start of the container, and the first
--                            administrator
--   Config                   app/config/config.py: the checks of the settings
--   Logging                  app/config/logging.py: what a record is made of, and who writes it
--   Base                     lists, options, Boolean tests, tables with a key, and Python's methods
--                            on texts
--   Tests                    concrete data, and each theorem applied to it
--
-- How the code is read. An object that the code mutates is passed on and returned: a method of
-- `User`, of a presenter or of a unit of work returns the new state beside its result. A session
-- of SQLAlchemy is the tables as its transaction sees them, with the mark that a flush has
-- failed; `UnitOfWork.Manager.async_with` opens, commits, rolls back and closes it as `__aexit__`
-- does. The connection of Django is the same, its mark being `needs_rollback`; there a foreign key
-- is checked where the transaction commits.
-- Requests are served one after another: transactions do not interleave. Numbers are natural
-- numbers without a bound, as Python's are, and integers in Config; times are microseconds, or
-- seconds for tokens. Every function is total, by recursion on a list or a number. Fuel is used
-- once, for the loop of `wait_for_db`: two rounds more than the seconds that it waits are enough.
--
-- What is not of the repository is given to the definitions as a parameter: bcrypt, PyJWT,
-- SHA-256, the random generators, the clocks and the fresh ids, the codes of the commands that
-- the entrypoint runs, the settings as Pydantic reads them, and, in `Drf.Framework`, how Django
-- and Django REST framework validate a field and answer an exception. A theorem that relies on
-- one states what it relies on as a hypothesis. The language's own `uuid.UUID` is written out, and
-- so are its methods on texts, for the letters and blanks of ASCII.
--
-- Not modelled: the migrations of Alembic and of Django, the rendering of log records as JSON,
-- the reading of the environment and the validation of request bodies by Pydantic before a handler
-- runs, the OpenAPI documents, and the settings of Django other than MIDDLEWARE.
pub mod Base
pub mod Domain
pub mod Database
pub mod World
pub mod UnitOfWork
pub mod Ports
pub mod InvariantService
pub mod Application
pub mod Auth
pub mod DjangoOrm
pub mod Security
pub mod Http
pub mod Drf
pub mod Startup
pub mod Config
pub mod Logging
pub mod Tests
