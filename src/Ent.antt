-- ===== src/Ent.antt =====
-- The database client in ent/: the error values, the rows of the tables, the checks that a builder
-- makes before it saves, and how a query's rows become a result. What is behind the client, the
-- database server and the SQL that reaches it, is the interface `Database` with its laws.
pub mod Error
pub mod Action
pub mod Program
pub mod Post
pub mod Schema
pub mod Tables
pub mod Groups
pub mod Database
pub mod Memory
pub mod Client
pub mod Balances
pub mod Accounts
pub mod WellFormed
pub mod Mutation
pub mod Create
pub mod Update
