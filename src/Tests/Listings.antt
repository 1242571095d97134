-- ===== src/Tests/Listings.antt =====
-- The directory listing at a concrete directory.
use anymount.Prelude.{
  zero, suc, ◌+◌, ◌≡◌, length-append, refl, [], ◌∷◌, some, ok, arith, take, drop, length,
}
use anymount.Fs.{pure}
use anymount.Readdir.{emit, synthesize, Entry, parent_of}
use anymount.Readdir.Listing.{listing, offer}
use anymount.Readdir.Refines.{emit-offer}
use anymount.Readdir.Resume.{gather, read_all, total, read_all-listing, Reply}
use anymount.Tests.Fixtures.{one_file, entries, one_file_lists}

emit-offer_example :
    (emit one_file (λ e t. pure (gather e t)) 5 1 1 synthesize (2, []) tt).0
    ≡ (let (all, t') = offer gather (drop 1 (listing 1 1 entries)) (2, []) in (some (ok all), t'))
emit-offer_example =
    emit-offer one_file (λ e t. pure (gather e t)) gather (λ e t s. refl) 1 entries one_file_lists 1
      (λ s. unfold parent_of in refl) 5 1 (2, []) tt (omega arith) (omega arith)

read_all-listing_example :
    read_all one_file 5 1 (1 ∷ 0 ∷ 4 ∷ []) [] tt
    ≡ take (total (1 ∷ 0 ∷ 4 ∷ [])) (listing 1 1 entries)
read_all-listing_example =
    read_all-listing one_file 1 1 entries one_file_lists (λ s. unfold parent_of in refl) 5
      (1 ∷ 0 ∷ 4 ∷ []) tt (omega arith) (omega arith)

gather_sum :
    (e : Entry) (t : Reply) → t.0 + length t.1 ≡ 2 → (gather e t).1.0 + length (gather e t).1.1 ≡ 2
unfolding gather
gather_sum e (zero, held) h = h
gather_sum e (suc room, held) h = omega (arith, length-append held (e ∷ []))

abbrev after_two : Reply
after_two = (emit one_file (λ e t. pure (gather e t)) 5 1 0 synthesize (2, []) tt).0.1
