-- ===== src/Web.antt =====
-- web/: the HTTP layer, from the checks of a request to the routes of one user.
pub mod Http
pub mod Reply
pub mod Accept
pub mod Lines
pub mod Body
pub mod ReadOnly
pub mod BsoRoutes
pub mod Listing
pub mod Guarded
pub mod BatchId
pub mod NotModified
pub mod Post
pub mod BatchParts
pub mod PostBatch
pub mod InfoRoutes
pub mod Nonce
pub mod Hawk
pub mod Cache
pub mod Weave
pub mod Log
pub mod Crypto
pub mod TidyUp
pub mod Pool
pub mod PoolHandler
pub mod UserHandler
pub mod Deletes
