-- ===== src/Tests/Paging.antt =====
-- A client that lists the root of the in-memory filesystem over NFS, two entries to a reply or one.
use anymount.Prelude.{◌+◌, ◌-◌, ◌≡◌, refl, arith, some, false, length, drop, All, to_be_bytes}
use anymount.Readdir.{parent_of}
use anymount.Readdir.Listing.{listing, numbered, dots_of}
use anymount.MemFs.{dir, new_tree, new_state, mem_fs}
use anymount.MemFs.Served.{mem_fs-Lists, mem_fs_parent}
use anymount.NfsProto.{readdir_ino}
use anymount.NfsProto.Entries.{Sized, dirents_of}
use anymount.NfsProto.Progress.{Progress, readdir_ino-Progress}
use anymount.NfsProto.Listing.{Fit, list_all, list_all-listing}
use anymount.Xdr.{
  write_bool, write_u32, write_u64, write_string, write_opaque_var, write_opaque_fixed,
}
use anymount.Tests.Fixtures.{owner, ctx, one_file, entries, one_file_lists}
use anymount.Tests.Memory.{root_entries, hello_children, root_node, root_collect, root_parent}

fits : All (Fit 200) (listing 1 1 root_entries)
unfolding listing dots_of numbered write_bool write_u32 write_u64 write_string write_opaque_var
    write_opaque_fixed to_be_bytes
fits = (
  record {
    sized = record { ino = omega arith; name = omega arith; cookie = omega arith };
    room = omega arith;
  },
  (
    record {
      sized = record { ino = omega arith; name = omega arith; cookie = omega arith };
      room = omega arith;
    },
    (
      record {
        sized = record { ino = omega arith; name = omega arith; cookie = omega arith };
        room = omega arith;
      },
      (
        record {
          sized = record { ino = omega arith; name = omega arith; cookie = omega arith };
          room = omega arith;
        },
        (
          record {
            sized = record { ino = omega arith; name = omega arith; cookie = omega arith };
            room = omega arith;
          },
          tt,
        ),
      ),
    ),
  ),
)

list_all-listing_example :
    (list_all
      (mem_fs owner new_tree)
      ctx
      5
      1
      200
      (length (listing 1 1 root_entries) + 1)
      0
      new_state).0
    ≡ some (dirents_of (listing 1 1 root_entries))
list_all-listing_example =
    list_all-listing (mem_fs owner new_tree) ctx 5 1 1 root_entries 200 new_state
      (mem_fs-Lists owner new_tree 1 hello_children root_entries root_node root_collect)
      (λ s. mem_fs_parent owner new_tree 1 1 (dir hello_children) s root_parent root_node)
      (omega arith) (omega arith) (omega arith) fits

words : All Sized (listing 1 1 entries)
unfolding listing dots_of numbered
words = (
  record { ino = omega arith; name = omega arith; cookie = omega arith },
  (
    record { ino = omega arith; name = omega arith; cookie = omega arith },
    (record { ino = omega arith; name = omega arith; cookie = omega arith }, tt),
  ),
)

-- A client that names 140 bytes, of which twelve are left for an entry.
readdir_ino-Progress_example :
    Progress
      (140 - 128)
      (drop 1 (listing 1 1 entries))
      (readdir_ino one_file ctx 5 1 140 false (some 1) tt).0
readdir_ino-Progress_example =
    readdir_ino-Progress one_file ctx 5 1 1 entries one_file_lists (λ s. unfold parent_of in refl)
      140 (omega arith) (omega arith) (omega arith) words 1 tt
