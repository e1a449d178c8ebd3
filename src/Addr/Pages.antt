-- ===== src/Addr/Pages.antt =====
-- How the macros of addr.h relate to each other.
use cidl.Base.{ℕ, ◌+◌, ◌*◌, ◌^◌, ◌≤◌, ◌<◌, ◌≡◌, arith, word64}
use cidl.Addr.{
  Ptr, page_size, get_addr, addr2page_num, addr2page_begin, addr2page_tail, addr2page_offset,
}

-- An address is put together again from its page number and its offset.
pub get_addr-split : (a : Ptr) → a < word64 → get_addr (addr2page_num a) (addr2page_offset a) ≡ a
unfolding get_addr addr2page_num addr2page_offset
get_addr-split a h = omega arith

-- A page number of 52 bits and an offset inside the page are read back from the address.
split-get_addr :
    (page offset : ℕ)
    → page < 2 ^ 52
    → offset < page_size
    → (addr2page_num (get_addr page offset) ≡ page)
      × (addr2page_offset (get_addr page offset) ≡ offset)
unfolding get_addr addr2page_num addr2page_offset
split-get_addr page offset hp ho = (omega arith, omega arith)

-- An address lies in the page that begins at `addr2page_begin`, which the next page follows at
-- `addr2page_tail`.
pub addr2page_bounds :
    (a : Ptr)
    → a + page_size < word64
    → (addr2page_begin a ≤ a)
      × (a < addr2page_tail a)
      × (addr2page_tail a ≡ addr2page_begin a + page_size)
      × (addr2page_begin a ≡ get_addr (addr2page_num a) 0)
unfolding addr2page_begin addr2page_tail get_addr addr2page_num
addr2page_bounds a h = (omega arith, omega arith, omega arith, omega arith)

pub get_addr-eq :
    (page offset : ℕ)
    → page < 2 ^ 52
    → offset < page_size
    → get_addr page offset ≡ page * 4096 + offset
unfolding get_addr
get_addr-eq page offset hp ho = omega arith

pub addr2page_offset-lt : (a : Ptr) → addr2page_offset a < page_size
unfolding addr2page_offset
addr2page_offset-lt a = omega arith
