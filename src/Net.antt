-- ===== src/Net.antt =====
-- windz/net: the reactor's network facilities.
pub mod Buffer
pub mod Timer
pub mod Channel
pub mod Connector
pub mod EventLoop
pub mod EventLoopThread
pub mod EventLoopThreadPool
pub mod TcpConnection
pub mod TcpServer
pub mod TcpClient
pub mod Socket
pub mod Acceptor
