-- ===== src/LogProxy/Buffer.antt =====
-- BufferWrap of logger/logproxy/log_proxy_buffer.go. A Go slice is its backing array, whose length is
-- the capacity, and the length that is in view.
use vlgo.Shared.{
  ℕ, ◌≤◌, ◌<◌, ◌≡◌, ◌++◌, List, refl, arith, ltb, if◌then◌else◌, length, take, drop, replicate,
  length-append, length-replicate, length-drop, length-take_le, length-take-le, take_all,
  take-append_left,
}

abbrev pub Bytes : Type 0
Bytes = List ℕ

abbrev pub default_log_buffer_size : ℕ
default_log_buffer_size = 256

abbrev pub log_temp_buffer_size : ℕ
log_temp_buffer_size = 4096

pub record BufferWrap : Type 0 where
  pub store : Bytes
  pub len : ℕ

unfoldable pub capacity : BufferWrap → ℕ
capacity bw = length bw.store

unfoldable pub new_buffer_wrap : ℕ → BufferWrap
new_buffer_wrap n = record { store = replicate n 0; len = n }

-- `Buffer`, the bytes in view.
unfoldable pub buffer : BufferWrap → Bytes
buffer bw = take bw.len bw.store

-- `bw.Buf = bw.Buf[:n]; copy(bw.Buf, src)`, with `n` cut down to the capacity.
unfoldable pub copy : BufferWrap → Bytes → BufferWrap
unfolding capacity
copy bw src =
    let n = if ltb (capacity bw) (length src) then capacity bw else length src in
    record { store = take n src ++ drop n bw.store; len = n }

-- The slice is within its array.
pub record IsSlice (bw : BufferWrap) : Type 0 where
  pub fits : bw.len ≤ capacity bw

pub capacity-new_buffer_wrap : (n : ℕ) → capacity (new_buffer_wrap n) ≡ n
unfolding capacity new_buffer_wrap
capacity-new_buffer_wrap n = length-replicate n 0

-- `Copy` never moves the buffer to another array.
pub capacity-copy : (bw : BufferWrap) (src : Bytes) → capacity (copy bw src) ≡ capacity bw
unfolding copy capacity
capacity-copy bw src = ground (
  arith,
  length-append (take (length src) src) (drop (length src) bw.store),
  length-append (take (length bw.store) src) (drop (length bw.store) bw.store),
  length-drop (length src) bw.store,
  length-drop (length bw.store) bw.store,
  length-take_le (length bw.store) src,
  length-take_le (length src) src,
)

-- When the source fits, `Copy` shows exactly the source.
pub buffer-copy :
    (bw : BufferWrap) (src : Bytes) → length src ≤ capacity bw → buffer (copy bw src) ≡ src
unfolding copy capacity buffer
buffer-copy bw src h = ground (
  arith,
  take-append_left (take (length src) src) (drop (length src) bw.store) (length src),
  length-take_le (length src) src,
  take_all (length src) src refl,
)

-- A longer source is cut to the capacity.
pub buffer-copy_cut :
    (bw : BufferWrap) (src : Bytes)
    → capacity bw < length src
    → buffer (copy bw src) ≡ take (capacity bw) src
unfolding copy capacity buffer
buffer-copy_cut bw src h = ground (
  arith,
  take-append_left (take (length bw.store) src) (drop (length bw.store) bw.store) (length bw.store),
  length-take_le (length bw.store) src,
)

pub copy-IsSlice : (bw : BufferWrap) (src : Bytes) → IsSlice (copy bw src)
unfolding copy
copy-IsSlice bw src = record { fits = ground (arith, capacity-copy bw src) }

pub length-buffer : (bw : BufferWrap) → IsSlice bw → length (buffer bw) ≡ bw.len
unfolding buffer capacity
length-buffer bw h = length-take_le bw.len bw.store h.fits

pub length-buffer_le : (bw : BufferWrap) → length (buffer bw) ≤ bw.len
unfolding buffer
length-buffer_le bw = length-take-le bw.len bw.store
