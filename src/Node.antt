-- ===== src/Node.antt =====
-- kaspad/src/manager.rs: the manager of the pool of connections to the node. The client, the resolver and the
-- identifiers of networks are those of the kaspa crates, and arguments.
use simply_kaspa_indexer.Prelude.{ℕ, Bool, not, ◌&&◌, ◌||◌, Option, none, some, ltb, if◌then◌else◌}

-- What is read of the node's answer.
pub record ServerInfo (NetworkId : Type 0) : Type 0 where
  pub network_id : NetworkId
  pub is_synced : Bool
  pub virtual_daa_score : ℕ

-- How an attempt to connect ends.
pub data Connected (Url : Type 0) : Type 0 where
  connected : Url → Connected Url
  failed : Connected Url
  panicked : Connected Url

-- `eq` is the equality of networks, `get_url` the resolver's answer, `connects` whether a client is
-- made for the address and connects, and `server_info` what the node there answers; `none` is an error.
pub record Outside (NetworkId Url : Type 0) : Type 0 where
  pub eq : NetworkId → NetworkId → Bool
  pub is_mainnet : NetworkId → Bool
  pub get_url : NetworkId → Option Url
  pub connects : Url → Bool
  pub server_info : Url → Option (ServerInfo NetworkId)

module _ {NetworkId Url : Type 0} (outside : Outside NetworkId Url) where
  unfoldable is_unfit : ServerInfo NetworkId → Bool
  is_unfit info =
      not info.is_synced
      || (outside.is_mainnet info.network_id && ltb info.virtual_daa_score 107107107)

  unfoldable check_info : NetworkId → Url → ServerInfo NetworkId → Connected Url
  unfolding is_unfit
  check_info network_id url info =
      if not (outside.eq network_id info.network_id)
      then panicked
      else if is_unfit info
      then failed
      else connected url

  unfoldable connect_to : NetworkId → Url → Connected Url
  unfolding check_info
  connect_to network_id url =
      if outside.connects url
      then elim (outside.server_info url) [
        | none ↦ failed
        | some info ↦ check_info network_id url info
      ]
      else failed

  unfoldable pub connect_client : NetworkId → Option Url → Connected Url
  unfolding connect_to
  connect_client network_id (some url) = connect_to network_id url
  connect_client network_id none = elim (outside.get_url network_id) [
    | none ↦ failed
    | some url ↦ connect_to network_id url
  ]

  -- A connection that the pool has kept is given out again while it stands; nothing else is asked.
  abbrev recycle : Bool → Bool
  recycle is_connected = is_connected
