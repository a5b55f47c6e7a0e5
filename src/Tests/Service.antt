-- ===== src/Tests/Service.antt =====
-- The theorems on the control service, at the store of Tests.Store.
use section.Base.{
  ◌≤◌, length, filter, ◌≡◌, refl, Bool, true, false, not, ◌&&◌, ◌||◌, none, some, [], ◌∷◌, ◌++◌,
  Result, ok, is_ok, if◌then◌else◌, ◌==◌, nat_eq, list_eq, any, find, is_none, contains, arith,
}
use section.Base.Text.{codes}
use section.AgentFs.Access.{
  capabilities, writer, read, commit, manage, role_has_capability, capability_eq,
  AgentFsGrantRecord, is_owner, has_capability, authorize_paths_for_fs,
}
use section.AgentFs.Records.{AgentFsShareRecord}
use section.Service.{ServiceError, Tables, known_filesystem, list_events}
use section.Service.Grants.{is_target, fs_grant, fs_revoke}
use section.Service.Grants.Rights.{fs_revoke-rights}
use section.Service.Grants.Replacement.{fs_grant-rights}
use section.Service.Grants.Invariant.{InOrder}
use section.Service.Grants.View.{
  holding, assign, allows, fs_grant-refines, authorize_paths_for_fs-holding,
}
use section.Service.Filesystems.{
  create_filesystem, ResolvedServiceFilesystem, resolve_filesystem_with_source,
}
use section.Service.Shares.{IssuedAgentFsCredential, expired, issue_credential, accept_share}
use section.Service.Shares.Access.{backs, accept_share-readable}
use section.Service.Shares.Revoked.{fs_revoke-issue_credential}
use section.Service.Agents.{AgentIdentityRecord, login_agent, authenticate_agent}
use section.Service.Agents.Login.{login_agent-authenticates}
use section.Service.Log.{Numbered}
use section.Service.Log.Appends.{fs_grant-log}
use section.Service.Reached.{IsSound}
use section.Service.Reached.Steps.{new_store, start, create, grant, revoke, reached-IsSound}
use section.Tests.Store.{
  alice, bob, profile, config, work, bob_reads, offered, store, stamp, stamps, value_of,
  revoked_now, granted_now, no_revocation, no_mutation,
}

fs_revoke-rights_example :
    (has_capability work store.grants alice manage ≡ true)
    × (has_capability work revoked_now.0.grants bob read ≡ false)
    × (has_capability work revoked_now.0.grants alice read ≡ (
        if work.fs_id == work.fs_id && alice == bob
        then is_owner work revoked_now.0.grants alice read
        else has_capability work store.grants alice read))
unfolding fs_revoke known_filesystem
fs_revoke-rights_example =
    fs_revoke-rights (codes "work") alice bob 5 stamps store revoked_now.0
      (value_of revoked_now.1 no_revocation) work work alice read (refl, tt) refl refl

fs_grant-rights_example :
    (has_capability work store.grants alice manage ≡ true)
    × ((alice == bob
          && role_has_capability writer commit
          && not (has_capability work store.grants alice commit))
        ≡ false)
    × (has_capability work granted_now.0.grants bob commit ≡ role_has_capability writer commit)
    × (has_capability work granted_now.0.grants bob commit ≡ (
        if work.fs_id == work.fs_id && bob == bob
        then role_has_capability writer commit || is_owner work granted_now.0.grants bob commit
        else has_capability work store.grants bob commit))
unfolding fs_grant known_filesystem
fs_grant-rights_example =
    fs_grant-rights (codes "work") alice bob writer none 5 stamps (stamp (codes "2"))
      (stamp (codes "3")) store granted_now.0 (value_of granted_now.1 no_mutation) work work bob
      commit (refl, tt) refl refl

fs_grant-refines_example :
    holding granted_now.0.grants
    ≡ assign (codes "fs_1") bob (some (writer, none)) (holding store.grants)
unfolding fs_grant known_filesystem
fs_grant-refines_example =
    fs_grant-refines (codes "work") alice bob writer none 5 stamps (stamp (codes "2"))
      (stamp (codes "3")) store granted_now.0 (value_of granted_now.1 no_mutation) work (refl, tt)
      refl refl

at_most_one :
    (p : AgentFsGrantRecord → Bool) (g : AgentFsGrantRecord) → length (filter p (g ∷ [])) ≤ 1
at_most_one p g = ground arith

one_row : InOrder (bob_reads ∷ [])
unfolding capabilities
one_row = record {
  distinct = (refl, tt);
  single = λ f a. at_most_one (is_target f a) bob_reads;
  roles = refl;
}

authorize_paths_for_fs-holding_example :
    is_ok (authorize_paths_for_fs work (bob_reads ∷ []) bob read (codes "a" ∷ [])) ≡ (
      is_owner work (bob_reads ∷ []) bob read
      || allows (holding (bob_reads ∷ []) (codes "fs_1") bob) read (codes "a" ∷ []))
authorize_paths_for_fs-holding_example =
    authorize_paths_for_fs-holding work (bob_reads ∷ []) bob read (codes "a" ∷ []) one_row

fs_grant-log_example :
    (list_events (codes "fs_1") granted_now.0
      ≡ list_events (codes "fs_1") store
        ++ (if codes "fs_1" == codes "fs_1"
            then (value_of granted_now.1 no_mutation).events
            else []))
    × Numbered 0 (list_events (codes "fs_1") granted_now.0)
unfolding fs_grant known_filesystem
fs_grant-log_example =
    fs_grant-log (codes "work") alice bob writer none 5 stamps (stamp (codes "2"))
      (stamp (codes "3")) store granted_now.0 (value_of granted_now.1 no_mutation) work
      (codes "fs_1") (λ f. tt) refl refl

fs_revoke-issue_credential_example :
    is_ok (issue_credential (codes "work") bob (codes "ins_1") (stamp (codes "c")) revoked_now.0).1
    ≡ false
unfolding fs_revoke known_filesystem
fs_revoke-issue_credential_example =
    fs_revoke-issue_credential (codes "work") alice bob (codes "ins_1") 5 stamps (stamp (codes "c"))
      store revoked_now.0 (value_of revoked_now.1 no_revocation) work (refl, tt) refl refl

abbrev login_now : Tables × Result ServiceError AgentIdentityRecord
login_now =
    login_agent (λ s. s) (codes " carol ") none none 9 (codes "3") (codes "t") (codes "i") store

abbrev nobody : AgentIdentityRecord
nobody = record {
  agent_id = [];
  installation_id = [];
  name = [];
  auth_token = [];
  created_at_ms = 0;
  updated_at_ms = 0;
}

login_agent-authenticates_example :
    authenticate_agent (λ s. s) (value_of login_now.1 nobody) login_now.0 ≡ ok tt
unfolding login_agent
login_agent-authenticates_example =
    login_agent-authenticates (λ s. s) (codes " carol ") none none 9 (codes "3") (codes "t")
      (codes "i") store login_now.0 (value_of login_now.1 nobody) (refl, (refl, tt)) refl refl

-- A filesystem is created, then a role on it is granted and revoked again.
abbrev created_store : Tables
created_store =
    (create_filesystem false (codes "work") (codes "disk") alice (codes "alice") true true
      (stamp (codes "f")) (stamp (codes "g")) (stamp (codes "e"))
      (new_store ((profile, config) ∷ []))).0

abbrev later_store : Tables
later_store =
    (fs_grant (codes "work") alice bob writer none 5 stamps (stamp (codes "2")) (stamp (codes "3"))
      created_store).0

reached-IsSound_example : IsSound (fs_revoke (codes "work") alice bob 5 stamps later_store).0
reached-IsSound_example =
    reached-IsSound (λ s. s) (fs_revoke (codes "work") alice bob 5 stamps later_store).0
      (revoke (codes "work") alice bob 5 stamps (
        grant (codes "work") alice bob writer none 5 stamps (stamp (codes "2")) (stamp (codes "3"))
          (create false (codes "work") (codes "disk") alice (codes "alice") true true
            (stamp (codes "f")) (stamp (codes "g")) (stamp (codes "e"))
            (start ((profile, config) ∷ [])))))

abbrev accepted_now : Tables × Result ServiceError (AgentFsShareRecord × IssuedAgentFsCredential)
accepted_now = accept_share (codes "shr_1") bob (codes "ins_1") 8 8 (stamp (codes "c")) store

abbrev nothing : AgentFsShareRecord × IssuedAgentFsCredential
nothing = (
  offered,
  record {
    binding = record {
      schema_version = 0;
      credential_binding_id = [];
      fs_id = [];
      agent_id = [];
      installation_id = [];
      source_profile_id = [];
      issued_at_ms = 0;
      expires_at_ms = 0;
    };
    source_profile = profile;
    source = config;
  },
)

accept_share-readable_example :
    (share : AgentFsShareRecord) × (resolved : ResolvedServiceFilesystem) × (find
        (λ s. s.share_id == codes "shr_1")
        store.shares
      ≡ some share)
    × (resolve_filesystem_with_source share.fs_id store ≡ ok resolved)
    × ((share.target_agent_id == bob
          && (is_none share.revoked_at_ms && not (expired 8 share.expires_at_ms)))
        ≡ true)
    × (has_capability resolved.fs store.grants bob read ≡ true)
    × (any
          (λ g. g.fs_id == resolved.fs.fs_id && (backs share g && contains g.capabilities read))
          store.grants
        ≡ true)
    × ((value_of accepted_now.1 nothing).1.binding.fs_id ≡ resolved.fs.fs_id)
    × ((value_of accepted_now.1 nothing).1.binding.agent_id ≡ bob)
unfolding accept_share
accept_share-readable_example =
    accept_share-readable (codes "shr_1") bob (codes "ins_1") 8 8 (stamp (codes "c")) store
      accepted_now.0 (value_of accepted_now.1 nothing).0 (value_of accepted_now.1 nothing).1 refl
