-- ===== src/Maildir/Examples.antt =====
-- The theorem on common/src/maildir.c at a concrete mailbox.
use iu7_pvs_cp.Base.{true, some, ◌≡◌, refl, ◌<◌, codes, length, arith}
use iu7_pvs_cp.Maildir.{made, exists, success, Temporary, maildir_tmp, maildir_new}
use iu7_pvs_cp.Maildir.Delivery.{file_in, maildir_new-maildir_tmp}

maildir_new-maildir_tmp_example :
    (t : Temporary) × (maildir_tmp
        (codes "mail")
        (codes "ann")
        18
        (codes "2024-02-29")
        exists
        made
        (some (5, codes "aB3xYz"))
      ≡ success t)
    × (length t.name < 18)
    × (maildir_new (codes "mail") (codes "ann") t.name made true
        ≡ success (record {
          from = t.path;
          to = file_in (codes "/new") (codes "mail") (codes "ann") t.name;
          renamed = true;
        }))
maildir_new-maildir_tmp_example =
    maildir_new-maildir_tmp (codes "mail") (codes "ann") (codes "2024-02-29") (codes "aB3xYz") 5
      exists made made true refl refl (omega arith) refl refl refl
