-- ===== src/Addr.antt =====
-- addr.h, and the globals that `init` of awn.c computes from the page size.
pub mod Init
pub mod Pages
use cidl.Base.{ℕ, ◌-◌, ◌*◌, ◌/◌, ◌%◌, ◌^◌, word64, add64, to_short}

-- An address, `void*`; also a page number, which the code keeps in a `void*`.
abbrev pub Ptr : Type 0
Ptr = ℕ

-- The values of `PAGESIZE`, `PAGENUMSHIFT` and `PAGEOFFMASK` on x86-64; `Addr.Init` derives the
-- last two from the first as `init` does.
abbrev pub page_size : ℕ
page_size = 4096

abbrev pub page_num_shift : ℕ
page_num_shift = 12

-- `((unsigned long long)pageNum<<PAGENUMSHIFT)+offset`
unfoldable pub get_addr : ℕ → ℕ → Ptr
get_addr page_num offset = add64 (page_num * 2 ^ page_num_shift % word64) offset

-- `(unsigned long long)addr>>PAGENUMSHIFT`
unfoldable pub addr2page_num : Ptr → ℕ
addr2page_num addr = addr / 2 ^ page_num_shift

-- `addr & PAGENUMMASK`: the mask clears the low `PAGENUMSHIFT` bits.
unfoldable pub addr2page_begin : Ptr → Ptr
addr2page_begin addr = addr - addr % 2 ^ page_num_shift

-- `(addr+PAGESIZE) & PAGENUMMASK`
unfoldable pub addr2page_tail : Ptr → Ptr
unfolding addr2page_begin
addr2page_tail addr = addr2page_begin (add64 addr page_size)

-- `(short)(addr & PAGEOFFMASK)`
unfoldable pub addr2page_offset : Ptr → ℕ
addr2page_offset addr = to_short (addr % 2 ^ page_num_shift)
