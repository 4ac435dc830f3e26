-- ===== src/Net/Errors.antt =====
-- The values of `BmErr` that the program itself returns or tests.
pub data BmErr : Type 0 where
  bm_ok bm_einval bm_eio bm_enodata bm_eperm : BmErr
