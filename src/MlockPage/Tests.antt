-- ===== src/MlockPage/Tests.antt =====
-- A password that crosses a page.
use xsecurelock.Prelude.{◌+◌, ◌%◌, ◌≤◌, ◌<◌, ◌≡◌, refl, arith}
use xsecurelock.MlockPage.{mlock_page, mlock_page-covers}

two_pages : mlock_page 4096 8190 10 ≡ (4096, 8192)
unfolding mlock_page
two_pages = refl

mlock_page-covers_example :
    let (start, len) = mlock_page 4096 8190 10 in
    (start % 4096 ≡ 0)
    × (len % 4096 ≡ 0)
    × (start ≤ 8190)
    × (8190 + 10 ≤ start + len)
    × (8190 < start + 4096)
    × (start + len < 8190 + 10 + 4096)
mlock_page-covers_example = mlock_page-covers 4096 8190 10 (omega arith) (omega arith) (omega arith)
