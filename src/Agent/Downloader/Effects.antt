-- ===== src/Agent/Downloader/Effects.antt =====
-- Download of internal/agent/downloader.go where it succeeds.
use ai_edge.Prelude.{ℕ, ◌<◌, ◌≡◌, ◌⊎◌, String, concat, true, Option, none, some}
use ai_edge.Agent.Updater.{Files, put}
use ai_edge.Agent.Downloader.{
  DownloadTools, Downloader, Fetch, Response, responds, DownloadResult, part_of, existing_size,
  range_header, prune_old_versions,
}

-- The disk with a content in place of the part.
abbrev pub committed : (dest content : String) → Files → Files
committed dest content files = put dest (some content) (put (part_of dest) none files)

-- What is to be in place after a whole answer: its body, or the part that was there with the body after
-- it, where a part of some size was asked to be completed and the answer is Partial Content.
abbrev pub IsContent :
    DownloadTools → Option String → (status : ℕ) → (body content : String) → Type 0
IsContent tools part status body content =
    ((status ≡ 200) × (content ≡ body))
    ⊎ (((status ≡ 206) × (existing_size tools part ≡ 0) × (content ≡ body))
        ⊎ ((status ≡ 206)
            × (old : String) × (part ≡ some old)
            × (0 < tools.size old)
            × (content ≡ concat old body)))

-- What was fetched, and that it is in place of the part.
abbrev Fetched : DownloadTools → (dest : String) → Response → Files → Files → Type 0
Fetched tools dest answered files after =
    (status : ℕ) × (body : String) × (content : String) × (answered ≡ responds status body true)
    × IsContent tools (files (part_of dest)) status body content
    × (after ≡ committed dest content files)

-- A download that succeeded: what is in place, what is answered, and the disk after the removal of old
-- versions.
abbrev pub Downloaded :
    DownloadTools
    → Downloader
    → Fetch
    → (name dest expected : String) → Files
    → DownloadResult
    → Files
    → Type 0
Downloaded tools d run name dest expected files r after =
    (status : ℕ) × (body : String) × (content : String) × (run.response
        (range_header (existing_size tools (files (part_of dest))))
      ≡ responds status body true)
    × IsContent tools (files (part_of dest)) status body content
    × (r ≡ record {
      local_path = dest;
      checksum = tools.sha256_hex content;
      size_bytes = tools.size content;
    })
    × ((expected ≡ "") ⊎ (tools.equal_fold (tools.sha256_hex content) expected ≡ true))
    × (after ≡ prune_old_versions tools d run name run.entries (committed dest content files))

module _ (tools : DownloadTools) (d : Downloader) (run : Fetch) (name expected : String) where
  -- The answer to the request for what the part lacks.
  abbrev asked : Files → (dest : String) → Response
  asked files dest = run.response (range_header (existing_size tools (files (part_of dest))))
