-- ===== src/Backend.antt =====
-- The remote memory that the page caches stand on: `RemoteAPI` (clients/windows/ramlink_cache_manager.py)
-- as its caller sees it. The caches take it as a parameter.
use ram_link.Base.{
  ℕ, ◌+◌, ◌*◌, ◌≤◌, ◌≡◌, refl, arith, length, slice, set_slice, Bytes, Result, ok, err, ltb,
  if◌then◌else◌, os_error, ◌||◌,
}

-- MAX_TRANSFER
abbrev pub max_transfer : ℕ
max_transfer = 1024 * 1024

pub record Backend (Remote : Type 0) : Type 0 where
  -- `read(offset, length)`
  pub read : ℕ → ℕ → Remote → Result Bytes × Remote
  -- `write(offset, data)`
  pub write : ℕ → Bytes → Remote → Result (Unit {0}) × Remote

-- A backend that works: a transfer that is not too long and stays in range succeeds, a read returns the
-- bytes there, and a write replaces them and no others.
pub record IsMemory {Remote : Type 0} (api : Backend Remote) (contents : Remote → Bytes)
    : Type 0 where
  pub reads :
      (offset size : ℕ) (r : Remote)
      → size ≤ max_transfer
      → offset + size ≤ length (contents r)
      → (r' : Remote) × (api.read offset size r
          ≡ (ok (slice (contents r) offset (offset + size)), r'))
        × (contents r' ≡ contents r)
  pub writes :
      (offset : ℕ) (bytes : Bytes) (r : Remote)
      → length bytes ≤ max_transfer
      → offset + length bytes ≤ length (contents r)
      → (r' : Remote) × (api.write offset bytes r ≡ (ok tt, r'))
        × (contents r' ≡ set_slice (contents r) offset (offset + length bytes) bytes)

-- A list of bytes is such a memory.
abbrev pub list_backend : Backend Bytes
list_backend = record {
  read = λ offset size r. (
    if ltb max_transfer size || ltb (length r) (offset + size)
        then err os_error
        else ok (slice r offset (offset + size)),
    r,
  );
  write = λ offset bytes r.
      if ltb max_transfer (length bytes) || ltb (length r) (offset + length bytes)
      then (err os_error, r)
      else (ok tt, set_slice r offset (offset + length bytes) bytes);
}

pub list_backend-IsMemory : IsMemory list_backend (λ r. r)
list_backend-IsMemory = record {
  reads = λ offset size r short fits. (r, ground arith, refl);
  writes = λ offset bytes r short fits.
      (set_slice r offset (offset + length bytes) bytes, ground arith, refl);
}
