-- ===== src/Program/Usage.antt =====
-- What binlogdumpK writes to stderr up to its loop. Its texts are in UTF-8.
use o2k.Prelude.{ℕ, List, [], ◌∷◌, ◌++◌, ◌||◌, if◌then◌else◌, codes}
use o2k.Kafka.{is_empty}
use o2k.Arguments.{Args, exits, args}
use o2k.Program.{print_arg}

-- The lines of `usage` behind the first one; the parentheses in that of the wait mode are wide ones.
abbrev options_text : List ℕ
options_text =
    codes
      "-b             : bootstrap-server, the default is \"qmatrix-1:9092,qmatrix-2:9092,qmatrix-3:9092\"\n"
    ++ (codes "-n             : the nodeName of reading, must be set\n"
        ++ (codes "-s             : the schemaName of reading, must be set\n"
            ++ (codes
                  "-t             : the tableName of reading, if no set, will be print all table\n"
                ++ (codes "-m             : wait mode\n"
                    ++ (codes "                0: Exit after obtaining the current all data\n"
                        ++ (codes "                1: Keep reading data until manual termination"
                            ++ ((239 ∷ 188 ∷ 136 ∷ [])
                                ++ (codes "Ctrl + c"
                                    ++ ((239 ∷ 188 ∷ 137 ∷ [])
                                        ++ (codes
                                              "\n-g             : consume group, default is binlogdumpK\n"
                                            ++ (codes
                                                  "-C             : it is 1 to commit offset, other not commit\n"
                                                ++ (codes "-r             : print raw storevalue\n"
                                                    ++ (codes
                                                          "-x             : topic name suffix, default is .binlog, topic_name=nodeName.schemaName.suffix\n"
                                                        ++ codes
                                                            "-h             : print this help message.\n")))))))))))))

unfoldable pub usage_text : List ℕ → List ℕ
usage_text name =
    codes "Usage: "
    ++ (name
        ++ (codes
              "  [-b bootStrapServer ] <-n nodeName > <-s schemaName> [-t tableName] [-m waitMode] [-g consumerGroup [-C Commit]]\n"
            ++ options_text))

-- What `main` makes of what `GetInputArg` has left: it exits with the usage, or it shows the topic.
unfoldable pub head_text : List ℕ → Args → List ℕ
unfolding usage_text print_arg
head_text name (exits c) = usage_text name
head_text name (args topic raw) =
    if is_empty topic.node_name || is_empty topic.schema_name
    then codes "nodeName and schemaName must be set \n" ++ usage_text name
    else print_arg topic
