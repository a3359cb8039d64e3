-- ===== src/DjangoOrm.antt =====
-- app/infrastructure/db/django_orm: the second implementation of the repositories and of the
-- unit of work, on the tables of models/, which are those of SQLAlchemy. A query set is the list
-- of the rows that pass its filter.
pub mod Rows
pub mod UserRepo
pub mod SessionRepo
pub mod UnitOfWork
pub mod Auth
