-- ===== src/Baseline.antt =====
-- internal/mcpprobe/baseline.go: the fingerprints of MCP tools and their comparison with what a
-- scan observes. The map is an association list in which the first pair of a key counts. Reading
-- the file and writing it is left out.
pub mod Drift
pub mod Keys
use keelix.Prelude.{
  ℕ, Bool, true, false, not, ◌&&◌, List, [], ◌∷◌, ◌++◌, Option, none, some, if◌then◌else◌,
}
use keelix.Text.{Text, text_eq}

-- The type baselineEntry.
pub record BaselineEntry : Type 0 where
  pub hash : Text
  pub first_seen : ℕ
  pub last_seen : ℕ
  pub pending_hash : Text
  pub server_command : Text
  pub server_url : Text

abbrev pub Baseline : Type 0
Baseline = List (Text × BaselineEntry)

-- b.entries[k]
unfoldable pub find_entry : Text → Baseline → Option BaselineEntry
find_entry k [] = none
find_entry k ((j, e) ∷ b) = let rest = find_entry k b in if text_eq j k then some e else rest

-- b.entries[k] = e
unfoldable pub put_entry : Text → BaselineEntry → Baseline → Baseline
put_entry k e [] = (k, e) ∷ []
put_entry k e ((j, d) ∷ b) =
    let rest = put_entry k e b in if text_eq j k then (k, e) ∷ b else (j, d) ∷ rest

pub record DiffResult : Type 0 where
  pub first_seen : Bool
  pub drifted : Bool
  pub hash : Text

pub record ServerIdentity : Type 0 where
  pub command : Text
  pub url : Text

-- The arguments of one call of Diff.
pub record Observation : Type 0 where
  pub client : Text
  pub server : Text
  pub tool : Text
  pub hash : Text
  pub now : ℕ
  pub id : ServerIdentity

-- keyOf
unfoldable pub key_of : Text → Text → Text → Text
key_of client server tool = client ++ b'|' ∷ (server ++ b'|' ∷ tool)

abbrev pub key : Observation → Text
key o = key_of o.client o.server o.tool

-- The entry of a first observation.
unfoldable pub inventory : Observation → BaselineEntry
inventory o = record {
  hash = o.hash;
  first_seen = o.now;
  last_seen = o.now;
  pending_hash = [];
  server_command = o.id.command;
  server_url = o.id.url;
}

unfoldable pub same_identity : BaselineEntry → Observation → Bool
same_identity prev o = text_eq prev.server_command o.id.command && text_eq prev.server_url o.id.url

-- The entry that Diff stores, and what it answers.
unfoldable pub diff_entry : Option BaselineEntry → Observation → BaselineEntry × DiffResult
diff_entry none o = (inventory o, record { first_seen = true; drifted = false; hash = o.hash })
diff_entry (some prev) o =
    if not (same_identity prev o)
    then (inventory o, record { first_seen = true; drifted = false; hash = o.hash })
    else if not (text_eq prev.hash o.hash)
    then (
      record prev { pending_hash = o.hash },
      record { first_seen = false; drifted = true; hash = o.hash },
    )
    else (
      record prev { pending_hash = []; last_seen = o.now },
      record { first_seen = false; drifted = false; hash = o.hash },
    )

-- Baseline.Diff
unfoldable pub diff : Baseline → Observation → Baseline × DiffResult
diff b o = let (e, result) = diff_entry (find_entry (key o) b) o in (put_entry (key o) e b, result)

-- The calls of Diff for a list of observations, one after the other.
unfoldable pub diff_all : Baseline → List Observation → Baseline
diff_all b [] = b
diff_all b (o ∷ os) = diff_all (diff b o).0 os
