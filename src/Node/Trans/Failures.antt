-- ===== src/Node/Trans/Failures.antt =====
-- The transformation of resources never succeeds.
use new_explorer_aios.Struct.Node.{InParas}
use new_explorer_aios.Flags.{get_item_node}
use new_explorer_aios.Links.Memory.{Ptr}
use new_explorer_aios.Group.World.{World}
use new_explorer_aios.Group.Compound.{fetch}
use new_explorer_aios.Node.Replies.{lift}
use new_explorer_aios.Node.Shared.{Setting}
use new_explorer_aios.Node.Find.Entity.{NoReply, NoReply-follow, NoReply-handle}
use new_explorer_aios.Node.Trans.{
  Events, node_struct_sched, node_struct_paras_update, node_struct_paras_gen,
  node_struct_trans_relat,
}

module _ (setting : Setting) (events : Events) where
  -- A transformation of resources never ends with NO_ERROR: after a schedule, an update and a
  -- new output item that all succeed, the code runs into the labels of the failures.
  pub node_struct_trans_relat-NoReply :
      (item : Ptr) (paras : InParas) (w : World)
      → NoReply (node_struct_trans_relat setting events item paras w)
  unfolding node_struct_trans_relat
  node_struct_trans_relat-NoReply item paras w = NoReply-follow (lift (fetch item) w) _ (λ i w1.
      let node : Ptr = setting.layout.vnode_num (get_item_node i) in
      NoReply-handle (node_struct_sched setting events node paras w1) _ _
        (λ left w2.
          NoReply-handle (node_struct_paras_update setting events node item left.0 w2) _ _
            (λ _ w3.
              NoReply-handle (node_struct_paras_gen setting events node item left.1 w3) _ _
                (λ _ w4. tt) (λ _ w4. tt))
            (λ _ w3. tt))
        (λ _ w2. tt))
