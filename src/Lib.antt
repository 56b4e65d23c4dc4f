-- ===== src/Lib.antt =====
-- go-websocket is a push server. Browsers and apps connect to it by websocket, business servers
-- ask it by HTTP to send messages to one client, to a group or to a whole system, and several such
-- servers form a cluster that passes requests on by RPC.
--
-- The parts and their files:
--
-- * Manager.antt is the connection manager (servers/clientmanager.go): the maps from client ids
--   to connections, from accounts to the ids that are online, from group keys and system ids to
--   ids, and the methods that change them. Manager/Removal.antt is the loop that takes an id out
--   of a group or a system; it ranges over a slice that it edits in place, so the array is kept
--   apart from the length. Manager/Maps.antt, Manager/Lookups.antt, Manager/Accounts.antt,
--   Manager/Online.antt and Manager/Sound.antt hold the lemmas. Manager/Shared.antt has the inner
--   maps as pointers into a store, which AllClient gives away (Manager/Shared/Refines.antt
--   compares AddClient there and on values), and Manager/Sections.antt splits
--   AddClient2SystemClient and DelClient into what they do under each of their locks.
-- * Events.antt is the loop Start of the same file, with EventConnect and EventDisconnect, and
--   the groups on this machine. Events/Laws.antt has what EventDisconnect does besides DelClient.
-- * Client.antt is the record of a connection (servers/client.go). Connections are shared by
--   reference: the heap of World.antt maps references to records.
-- * Connect.antt is the handshake (servers/connect.go) and a round of the loop Read
--   (servers/client.go), and Connect/Reading.antt is that loop.
-- * Server.antt is servers/server.go: the sends and closes, local or by RPC, WriteMessage and
--   PingTimer. Server/Delivery.antt has the lemmas on what they write, and Server/Order.antt
--   compares runs that meet the connections of a client in different orders.
-- * Rpc.antt is servers/rpcclient.go, with the requests of servers/grpc.proto;
--   Rpc/OnlineList.antt is the collection of the answers of a cluster.
-- * Crypto.antt is tools/crypto/crypto.go, Util.antt is tools/util/util.go and Setting.antt is
--   pkg/setting/setting.go.
-- * World.antt is the state of a running server, and System.antt what its goroutines and the
--   outside do to it, one action at a time. System/Journey.antt follows a message through it,
--   System/Listing.antt a new connection into the online list, System/Closing.antt a connection
--   that its client closes, System/Kicking.antt a request to close one, System/Broadcasts.antt a
--   message to all clients of a system, and System/Dropped.antt a message to a client of a
--   cluster. System/Queues.antt and System/Writes.antt work the channels off. System/Safe.antt and
--   System/Bound.antt state the invariant, and System/Sends.antt, System/Loops.antt,
--   System/Actions.antt and System/Invariant.antt prove it. System/Table.antt is an abstract view
--   of the connections, a function from ids and addresses, with the effect that each action has
--   on it, its bugs included; System/Table/Keeps.antt, System/Table/Methods.antt, System/Table/Refines.antt and
--   System/Table/History.antt compare the running server with it, by the rule of
--   System/Table/Rule.antt. System/Owners.antt and System/Lonely.antt say which clients a system
--   has, and System/GroupSends.antt what SendMessage2LocalGroup sends.
-- * Account.antt is servers/account.go, with each call as one action; Account/Concurrent.antt
--   splits the calls on a single machine into their atomic steps, in any order. Routers.antt is
--   AccessTokenMiddleware and Routers/AccessLog.antt AccessLogMiddleware of routers/middleware.go,
--   Routers/Routes.antt is routers/routers.go with StartWebSocket, Api.antt are the handlers of
--   api, with the answers in Http.antt (api/controller.go), and RpcServer.antt are those of
--   servers/rpcserver.go. Api/Groups.antt follows a message to a group through a cluster, and
--   Api/Delivery.antt a request to send to several clients to their sockets.
-- * Registration.antt is pkg/etcd/etcdreg.go, Discovery.antt is pkg/etcd/etcddis.go with its
--   laws in Discovery/Laws.antt and Discovery/Puts.antt, and Etcd.antt is pkg/etcd/etcd.go.
-- * Main.antt is main.go: the settings, the RPC server, the registration and the discovery, the
--   routes, the heartbeat and the HTTP server, in this order. Main/Steps.antt takes a start that
--   succeeded apart, and Main/Laws.antt draws the conclusions.
-- * Hooks.antt is hooks/hooks.go, and Log.antt is Setup of tools/log/log.go; Log/Laws.antt says
--   where the entries go.
-- * Prelude.antt and its modules pass on the library's names and hold what all parts share.
-- * Tests.antt and its modules run the code on concrete inputs.
--
-- Strings are lists of bytes. Maps are association lists in the order in which a range visits
-- them. A call of the code is one action, also where it takes several locks one after the other,
-- which Manager/Sections.antt takes apart (AddClient2SystemClient, DelClient), or none (Register
-- on a single machine, in Account/Concurrent.antt), and where it ranges over a map or a slice that
-- was given to it from under a lock (PingTimer, SendMessage2LocalGroup, WriteMessage). A channel
-- is the list of what was sent and not yet received, with the capacity that the code makes it
-- with; an action that sends to a full channel ends as `blocked`, and one that panics as
-- `crashed`. What a goroutine has still to do that is blocked is a `Rest` of System.antt, which the
-- action `resumes` takes up, at once or after other actions; Reach lets any rest be resumed at any
-- time, and the libraries answer otherwise in each action, so that it has the states of every run
-- and more. Goroutines that the code starts are a list of tasks that run in any order. No
-- definition uses fuel: each loop is a recursion on the list or the count that it ranges over. The
-- endless loops Start, WriteMessage, PingTimer, Read, watcher and ListenLeaseRespChan are given by
-- their bodies, or by the list of what their channel gives.
--
-- Parameters are the AES and base64 libraries, JSON, the validator, UUIDs, random bytes, the
-- calls of etcd's client (Etcd of Account.antt, Leases of Registration.antt), net.JoinHostPort,
-- the parsed ini file, runtime.Caller, rotatelogs.New, whether a write or a ping on a socket
-- succeeds, and what the calls of GetOnlineListBroadcast are answered with and in which order
-- they end (Network of Rpc.antt). What is assumed of them is in IsLawful of Crypto.antt,
-- IsRequired of Api.antt, IsStore of Account.antt, Answers of Discovery/Laws.antt, EndsAll of
-- Rpc/OnlineList.antt, and KeepsPuts and JoinsPlain of Main/Laws.antt.
--
-- Not modelled are the log libraries, which rotate and write the files, the parsing of the ini
-- file, the time that the access log notes, the generated RPC code (servers/pb) and the copies of
-- other projects' libraries (vendor). A client of another machine is reached by RPC only where the
-- code does it: many of its calls are commented out, and so they are missing here.
pub mod Prelude
pub mod Client
pub mod Crypto
pub mod Setting
pub mod Util
pub mod Rpc
pub mod Manager
pub mod World
pub mod Server
pub mod Events
pub mod Connect
pub mod System
pub mod Account
pub mod Http
pub mod Routers
pub mod Discovery
pub mod Registration
pub mod Etcd
pub mod Log
pub mod Main
pub mod Hooks
pub mod RpcServer
pub mod Api
mod Tests
