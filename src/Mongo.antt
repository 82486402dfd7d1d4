-- ===== src/Mongo.antt =====
-- `MongoDatabase` of trusted/MongoDatabase.cpp: groups of users in a database that the enclave does not
-- trust, with signed documents.
pub mod Bson
pub mod Platform
pub mod Hashing
pub mod Signature
pub mod Users
pub mod Rounds
pub mod Groups
pub mod Deleting
pub mod Reading
pub mod Admin
pub mod First
pub mod Server
pub mod Spec
pub mod Quiet
pub mod Distinct
pub mod Single
pub mod Methods
pub mod Keys
pub mod Accounts
pub mod Inserting
pub mod Creating
pub mod Lifecycle
pub mod Removals
pub mod Cleaning
pub mod Signed
pub mod Authentic
pub mod Vouched
pub mod Both
pub mod Directory
pub mod Sample
pub mod Shared
pub mod Weaknesses
mod Examples
mod Runs
