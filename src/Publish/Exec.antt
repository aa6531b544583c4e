-- ===== src/Publish/Exec.antt =====
-- internal/publish/exec.go: the adapter that runs a hook, as far as planning asks it.
use serial_sync.Base.{
  ℕ, String, true, false, Option, none, List, [], ◌∷◌, ◌⧺◌, ◌≟◌, ◌==◌, if◌then◌else◌, Error, ok,
}
use serial_sync.Domain.Library.{PublishCandidate, PublishRecordBundle}
use serial_sync.Publish.Target.{Target, DeliveryIdentity, handoff_none}
use serial_sync.Publish.Filesystem.{hash_publish}

-- `strings.Join`
unfoldable pub join_with : String → List String → String
join_with sep [] = ""
join_with sep (p ∷ []) = p
join_with sep (p ∷ q ∷ ps) = p ⧺ (sep ⧺ join_with sep (q ∷ ps))

-- `ExecTargetSignature`
unfoldable pub exec_target_signature : List String → String
unfolding join_with
exec_target_signature command = join_with "\0" command

module _ (sha256 quote : String → String) (protocol_version : ℕ) (id : String)
    (command : List String) where
  quoted : List String → List String
  quoted [] = []
  quoted (p ∷ ps) = quote p ∷ quoted ps

  -- `ExecTargetRef`, over Go's `strconv.Quote`
  unfoldable pub exec_target_ref : String
  unfolding quoted join_with
  exec_target_ref = join_with " " (quoted command)

  unfoldable pub exec_publish_signature : PublishCandidate → String
  unfolding exec_target_signature
  exec_publish_signature c =
      if protocol_version == 2
      then exec_target_signature command ⧺ ("\0v2\0" ⧺ c.artifact.filename)
      else exec_target_signature command

  unfoldable pub identity :
      PublishCandidate → List PublishRecordBundle → DeliveryIdentity × Option Error
  unfolding exec_target_ref exec_publish_signature
  identity c records = (
    record {
      ref = exec_target_ref;
      publish_hash = hash_publish sha256 id c.artifact.sha256 (exec_publish_signature c);
      desired_key = c.artifact.id ⧺ ("\0" ⧺ c.artifact.filename);
      intact = true;
      handoff = handoff_none;
    },
    none,
  )

  -- `ExecTarget`: the hook owns its destination, and only a versioned hook retires.
  unfoldable pub exec_target : Target
  unfolding identity
  exec_target = record {
    target_id = id;
    kind = "exec";
    capabilities = record {
      pending_record = false;
      retires = protocol_version == 2;
      hands_off = false;
    };
    identity = identity;
    desired_key_for_record = λ r. r.artifact.id ⧺ ("\0" ⧺ r.record_.filename);
    matches_destination = λ r c. r.record_.filename ≟ c.artifact.filename;
    reorder = λ candidates records volumes. ok (candidates, []);
    check_destination = λ ref owned. ok "";
  }
