-- ===== src/Node/Trans/Example.antt =====
-- A transformation of resources where every call that it makes succeeds.
use new_explorer_aios.Prelude.{some}
use new_explorer_aios.Struct.Node.{InParas}
use new_explorer_aios.Group.Sample.{empty_world}
use new_explorer_aios.Node.Example.{setting}
use new_explorer_aios.Node.Replies.{succeed}
use new_explorer_aios.Node.Find.Entity.{NoReply}
use new_explorer_aios.Node.Trans.{Events, node_struct_trans_relat}
use new_explorer_aios.Node.Trans.Failures.{node_struct_trans_relat-NoReply}

-- Five of each.
abbrev fives : InParas
fives = record { word0 = 5; word1 = 5; word2 = 5; word3 = 5 }

abbrev all_succeed : Events
all_succeed = record {
  sched = some (λ node paras. succeed (paras, paras));
  map = some (λ node range. succeed range);
  alloc = λ node size. succeed 4096;
  free = λ range. succeed tt;
  put_item = λ item output node paras. succeed tt;
  item_of = λ range. 10216;
  node_map = λ node. 700;
  benchmark = λ dim. fives;
}

node_struct_trans_relat-NoReply_example :
    NoReply (node_struct_trans_relat setting all_succeed 10216 fives empty_world)
node_struct_trans_relat-NoReply_example =
    node_struct_trans_relat-NoReply setting all_succeed 10216 fives empty_world
