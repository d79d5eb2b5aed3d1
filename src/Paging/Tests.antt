-- ===== src/Paging/Tests.antt =====
-- An address space with the directory on page 5 and no table, and the pages 6 and 7 free.
use brainix_old.Base.{◌+◌, ◌^◌, ◌≡◌, refl, true, false, ◌&&◌, ◌||◌, ◌==◌, [], ◌∷◌, arith}
use brainix_old.Paging.{Pages, pg_map, pg_unmap, next_page}
use brainix_old.Paging.Space.{IsSpace}
use brainix_old.Paging.Map.{Outcome, pg_map_lem}
use brainix_old.Paging.Unmap.{Unmapped, pg_unmap_lem}

abbrev pages : Pages
pages = record {
  entry = λ q k. record { p = false; us = true; sign_phys = 0 };
  free_pg = 24576 ∷ 28672 ∷ [];
  used_pg = 20480 ∷ [];
}

pages-IsSpace : IsSpace pages 5
pages-IsSpace = record {
  apart = λ a h. absurd (ground arith);
  tables = λ a b h h' q. absurd (ground arith);
}

pg_map_lem_example : Outcome pages 20480 28672 1052672 (pg_map pages 20480 28672 1052672 true)
pg_map_lem_example =
    pg_map_lem pages 20480 28672 1052672 true pages-IsSpace
      (omega arith, λ a h. absurd (ground arith))

-- The directory on page 5, its only table on page 6, and the only entry of that leads to page 7.
abbrev one_page : Pages
one_page = record {
  entry = λ q k. record {
    p = ((q == 5) && (k == 0)) || ((q == 6) && (k == 1));
    us = true;
    sign_phys = q + 1;
  };
  free_pg = [];
  used_pg = 28672 ∷ 24576 ∷ 20480 ∷ [];
}

one_page-IsSpace : IsSpace one_page 5
one_page-IsSpace = record {
  apart = λ a h z. absurd (omega arith);
  tables = λ a b h h' q. ground arith;
}

pg_unmap_lem_example : Unmapped one_page 20480 4096 (pg_unmap one_page 20480 4096)
pg_unmap_lem_example = pg_unmap_lem one_page 20480 4096 one_page-IsSpace refl

-- Behind the second page of a heap comes the next directory entry, not the third page.
second_page : next_page true (2 ^ 31 + 4096) ≡ 2 ^ 31 + 4194304
unfolding next_page
second_page = refl
