-- ===== src/Utils.antt =====
-- utils/: the result type, the JSON validation, the arguments of execv and the cache.
pub mod Expected
pub mod ParseJson
pub mod ExecVArgs
pub mod LruCache
