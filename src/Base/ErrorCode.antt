-- ===== src/Base/ErrorCode.antt =====
-- include/modern_leveldb/base/result.h: the kinds of error.
pub data ErrorCode : Type 0 where
  not_found corruption invalid_argument io not_supported busy aborted : ErrorCode
