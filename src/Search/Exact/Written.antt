-- ===== src/Search/Exact/Written.antt =====
-- From `write_snapshot` to `search_packages`: what a search finds in a snapshot that was written.
use aurhub.Base.{ℕ, ◌≡◌, ◌≢◌, ap, ◌∙◌, Bool, [], map, length, take, get_or, Option}
use aurhub.Base.Result.{ok, Ensures-value}
use aurhub.Bytes.{Bytes, contains}
use aurhub.Model.{ℤ}
use aurhub.Snapshot.Builder.Count.{AllBytes}
use aurhub.Snapshot.Format.{SnapshotView, search_text, package_record}
use aurhub.Snapshot.Reader.{check_search}
use aurhub.Snapshot.Writer.{SnapshotInput, write_snapshot}
use aurhub.Snapshot.Writer.File.{IsWritten, search_text-read, write_snapshot-IsWritten}
use aurhub.Search.Exact.Answer.{search_packages-exact}
use aurhub.Search.Hits.{hits, hits_congr}
use aurhub.Search.Scan.{search_packages}

search_text-IsWritten :
    (input : SnapshotInput) (view : SnapshotView) (p : ℕ)
    → IsWritten input view
    → search_text view p ≡ get_or (map (λ q. q.search) input.packages) p []
unfolding search_text package_record
search_text-IsWritten input view p written =
    search_text-read view.strings view.search_texts (length input.branches) view.records
      input.packages p written.tables_read.packages_read

-- When `write_snapshot` returned a snapshot of packages whose search texts are lists of bytes,
-- `search_packages` finds in it, for a query that is not empty, the first `limit` indices, in
-- ascending order, of the given packages whose search text contains the query.
pub write_snapshot-search_packages :
    (gzip : Bytes → Option Bytes) (now : ℤ) (input : SnapshotInput) (view : SnapshotView)
    (query : Bytes) (limit : ℕ) (with_stats : Bool)
    → AllBytes (map (λ q. q.search) input.packages)
    → write_snapshot gzip now input ≡ ok view
    → query ≢ []
    → (search_packages view query limit with_stats).results
      ≡ take limit (
          hits
            (λ p. contains (get_or (map (λ q. q.search) input.packages) p []) query)
            0
            (length input.packages))
write_snapshot-search_packages gzip now input view query limit with_stats bytes run asks =
    let written = Ensures-value (write_snapshot-IsWritten gzip now input bytes) run in
    search_packages-exact view query limit with_stats written.indexed asks
    ∙ ap (take limit) (
        hits_congr (λ p. contains (search_text view p) query)
          (λ p. contains (get_or (map (λ q. q.search) input.packages) p []) query) 0
          view.header.package_count
          (λ p l u. ap (λ t. contains t query) (search_text-IsWritten input view p written))
        ∙ ap (hits (λ p. contains (get_or (map (λ q. q.search) input.packages) p []) query) 0)
            written.counts_packages)

-- When `write_snapshot` returned a snapshot of packages whose search texts are lists of bytes, the
-- reader's full check accepts its blocks of both levels.
pub write_snapshot-check_search :
    (gzip : Bytes → Option Bytes) (now : ℤ) (input : SnapshotInput) (view : SnapshotView)
    → AllBytes (map (λ q. q.search) input.packages)
    → write_snapshot gzip now input ≡ ok view
    → check_search view ≡ ok tt
write_snapshot-check_search gzip now input view bytes run =
    (Ensures-value (write_snapshot-IsWritten gzip now input bytes) run).checked
