-- ===== src/Lib.antt =====
-- A model of the two C++ programs of o2k, with theorems: the administration client of qdcadm/ and
-- the reader of binlogs of binlogdump/.
--
-- qdcadm talks to the administration server over a TCP stream. qdcadm/SimpleSocketFunc.cpp reads
-- and writes bytes and packets (Socket.antt), the class CMsgRW of qdcadm/CAdmMsg.cpp keeps a buffer
-- for one packet and parses, reads and sends messages with it (MsgRw.antt), and the class
-- CAdmClient of qdcadm/CAdmClient.cpp logs in with these and sends a command (AdmClient.antt);
-- qdcadm/qdcadm.cpp reads the arguments, runs a command and prints the answer (Qdcadm.antt);
-- Qdcadm/Output.antt has what it prints as bytes, and Qdcadm/Clock.antt the time in it.
-- MsgRw/Memory.antt follows the arrays that a CMsgRW makes and gives back. The server's side of the
-- sockets is in Listener.antt, the text of a system error in SysError.antt. The messages are those
-- of qdcadm/AdminMsg.pb.h (AdminMsg.antt) with the parsers and printers of qdcadm/AdminMsg.pb.cc
-- (AdminMsg/Parsing.antt); the parameters of a command are a map (StrMap.antt). binlogdumpK reads
-- messages with the class CBinlogKafkaReader of binlogdump/CBinlogKafka.cpp (Kafka.antt;
-- Kafka/Pointer.antt has the object that has no consumer), which it sets up, commits and destroys
-- in Consumer.antt; its arguments (Arguments.antt), its loop, its output and its statistics
-- (Dump.antt), and `main` as a whole (Program.antt, with its usage in Program/Usage.antt) are in
-- binlogdump/binlogdumpK.cpp. The guards of binlogdump/utmisc.h are in Defer.antt. Keeping.antt
-- carries what reading and writing a socket keep through packets and messages; Descriptors.antt
-- follows the descriptors that qdcadm opens and closes through all of this.
--
-- Correspondence. A function of the source has the name of its definition in the other spelling:
-- SocketRead is Socket.socket_read, CMsgRW::ReadPacket is MsgRw.read_packet, CMsgRW::SendPacket is
-- MsgRw.send, CAdmClient::SendCommand is AdmClient.send_command, CBinlogKafkaReader::Read is
-- Kafka.read, PrintSql is Dump.print_sql, and so on. An object is a record of its fields (MsgRw,
-- AdmClient, Reader) that a method takes and returns; the world outside is passed along in the same
-- way. A call returns an Outcome: a value, a fault where the code would leave an array or go
-- through a null pointer, or stuck where a loop used up its fuel. A text in an error buffer is
-- named by the statement that writes it (ErrText).
--
-- Parameters. The operating system is the record Os, with what its documentation says of a stream
-- as the laws of IsStream, of one whose calls fail only by interruption as IsHealthy, and of the
-- open descriptors as TracksOpen; what the exchange of a reply needs of its bytes is IsWire, which
-- MsgRw/Encoding.antt is about; the server's calls are the record ServerOs, whose waits are bounded
-- by IsPatient; IsQuiet says that opening and closing bring no interruptions. What the ends of
-- partitions need of librdkafka is IsAnswered. The parsers and printers of messages are the record
-- Codec in qdcadm, which AdminMsg/Parsing.antt fills with the generated code of
-- qdcadm/AdminMsg.pb.cc over the protobuf runtime's reading and writing of single fields (the
-- record Wire, with the laws of the encoding as IsEncoding), and the record Formats in binlogdumpK.
-- What librdkafka accepts is the record Librdkafka, and its answers are arguments of the calls,
-- message by message. The results of getopt are a list. Examples/Kernel.antt has an operating
-- system that gives a stream in pieces, with interruptions.
--
-- Bounds and fuel. Lengths are native numbers; the int and uint32_t of a packet's length and the
-- uint64_t of the statistics have their bounds written out. The loops over a socket have fuel: each
-- pass moves a byte or uses up an interruption, so a number above both together is enough; for a
-- whole run of qdcadm 2^31 and a few more, since no message of 2 GB is serialized (IsBounded) and
-- the largest packet that is read is 2^20. FD_SET of a descriptor that is not below FD_SETSIZE,
-- 1024, is a fault, and what atoi makes of a text is an int, as glibc has it. StrSplit passes once
-- for each character at most. The loops of Kafka and Dump take one message or turn in each pass.
--
-- Not modelled: the log that dumpbin writes in a build for debugging; the callbacks of librdkafka,
-- which do nothing but write an error; the lines that Init of CBinlogKafkaReader writes; the
-- generated code of binlogdump/, and of qdcadm/AdminMsg.pb.cc the messages that qdcadm does not
-- use, with accessors and reflection; the Java programs.
pub mod Prelude
pub mod Outcome
pub mod Os
pub mod Socket
pub mod SysError
pub mod Listener
pub mod AdminMsg
pub mod StrMap
pub mod MsgRw
pub mod AdmClient
pub mod Kafka
pub mod Arguments
pub mod Defer
pub mod Dump
pub mod Consumer
pub mod Program
pub mod Qdcadm
pub mod Keeping
pub mod Descriptors
pub mod Examples
