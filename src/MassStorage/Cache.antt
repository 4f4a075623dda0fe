-- ===== src/MassStorage/Cache.antt =====
-- The block cache.
use usbproxy.Base.{
  ℕ, ◌≤◌, ◌≡◌, refl, ap, ◌∙◌, none, some, List, [], ◌∷◌, ◌++◌, arith, ◌==◌, if◌then◌else◌, le→leb,
  ==_refl, length, take, drop, length-take, Bytes,
}
use usbproxy.Result.{ok, read_bytes}
use usbproxy.MassStorage.{overlay, find, put, cache_read, cache_write, block_size}

pub find-put :
    (a b : ℕ) (new : Bytes) (cache : List (ℕ × Bytes))
    → find b (put a new cache) ≡ (if b == a then some new else find b cache)
unfolding find put
find-put a b new [] = refl
find-put a b new ((c, block) ∷ cache) = ground (arith, find-put a b new cache)

pub read_bytes-fits :
    (n : ℕ) (bytes : Bytes) → n ≤ length bytes → read_bytes n bytes ≡ ok (take n bytes)
read_bytes-fits n bytes h = rw (le→leb n (length bytes) h)

overlay-fits :
    (n : ℕ) (old new : Bytes)
    → length new ≡ n
    → n ≤ length old
    → overlay old new ≡ ok (new ++ drop n old)
overlay-fits n old new e h =
    rw (le→leb (length new) (length old) (omega arith)) (ap (λ k. ok (new ++ drop k old)) e)

-- Reading a block that the host has written puts what was written in the place of what the device
-- sends, and does not change the cache. Reading any other block is as it was before the write.
pub cache_read-cache_write :
    (cache : List (ℕ × Bytes)) (a b : ℕ) (written sent : Bytes)
    → block_size ≤ length written
    → block_size ≤ length sent
    → (cache' : List (ℕ × Bytes)) × (cache_write cache a written ≡ ok cache')
      × (cache_read cache' a sent ≡ ok (cache', take block_size written ++ drop block_size sent))
      × (find b cache' ≡ (if b == a then some (take block_size written) else find b cache))
unfolding cache_read cache_write
cache_read-cache_write cache a b written sent h k =
    let block = take block_size written in
    let cache' = put a block cache in
    let found : find a cache' ≡ some block = find-put a a block cache ∙ (rw (==_refl a) refl) in
    let size : length block ≡ block_size = omega (arith, length-take block_size written) in
    let laid : overlay sent block ≡ ok (block ++ drop block_size sent) =
      overlay-fits block_size sent block size (omega arith) in
    (
      cache',
      rw (read_bytes-fits block_size written h) refl,
      rw (found, cache_read, laid) refl,
      find-put a b block cache,
    )

-- A block that is read twice is read the second time as it was the first.
pub cache_read_again :
    (cache : List (ℕ × Bytes)) (a : ℕ) (first second : Bytes)
    → find a cache ≡ none
    → block_size ≤ length first
    → block_size ≤ length second
    → (cache' : List (ℕ × Bytes)) × (cache_read cache a first ≡ ok (cache', first))
      × (cache_read cache' a second ≡ ok (cache', take block_size first ++ drop block_size second))
unfolding cache_read
cache_read_again cache a first second missing h k =
    let block = take block_size first in
    let cache' = put a block cache in
    let found : find a cache' ≡ some block = find-put a a block cache ∙ (rw (==_refl a) refl) in
    let size : length block ≡ block_size = omega (arith, length-take block_size first) in
    let laid : overlay second block ≡ ok (block ++ drop block_size second) =
      overlay-fits block_size second block size (omega arith) in
    (
      cache',
      rw (missing, cache_read, read_bytes-fits block_size first h) refl,
      rw (found, cache_read, laid) refl,
    )
