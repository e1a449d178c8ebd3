-- ===== src/Examples/Addresses.antt =====
-- The page globals at x86-64's page size.
use cidl.Base.{◌-◌, ◌^◌, ◌≡◌, some, arith, word64}
use cidl.Addr.Init.{init_pages, init_pages-pow}

init_pages-pow_example :
    init_pages 13 (2 ^ 12)
    ≡ some (record {
      size = 2 ^ 12;
      num_shift = 12;
      off_mask = 2 ^ 12 - 1;
      num_mask = word64 - 1 - (2 ^ 12 - 1);
    })
init_pages-pow_example = init_pages-pow 12 13 (omega arith)
